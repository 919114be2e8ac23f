-- ===== src/Tests/Data.antt =====
-- An order of one item, and a connection that is a buffer.
use restuarant_ordering_csf.Base.{
  pos, refl, ap, [], ◌∷◌, ◌++◌, some, Text, codes, length, take, drop, take-append, drop-append,
  arith,
}
use restuarant_ordering_csf.Model.{Item, Order, ItemStatus, OrderStatus}
use restuarant_ordering_csf.Wire.Orders.Shape.{IsWireItem, IsWireOrder}
use restuarant_ordering_csf.Io.{Rio}
use restuarant_ordering_csf.Io.Framing.{Stream}

abbrev pub fries : Item
fries = record {
  order_id = pos 1;
  id = pos 7;
  status = ItemStatus.new;
  desc = codes "Fries";
  qty = pos 2;
}

abbrev pub lunch : Order
lunch = record { id = pos 1; status = OrderStatus.new; items = fries ∷ [] }

fries-IsWireItem : IsWireItem fries
fries-IsWireItem = record {
  order_id = omega arith;
  id = omega arith;
  status = λ e. cc;
  desc = omega arith;
  qty = omega arith;
}

pub lunch-IsWireOrder : IsWireOrder lunch
lunch-IsWireOrder = record {
  id = omega arith;
  status = λ e. cc;
  some_item = λ e. cc;
  items = (fries-IsWireItem, tt);
}

-- Bytes that are written are read again.
abbrev pub buffer : Rio Text
buffer = record {
  readn = λ w n. (some (take n w), drop n w);
  writen = λ w s. (pos (length s), w ++ s);
}

abbrev pub buffer-Stream : Stream buffer
buffer-Stream = record {
  pending = λ w. w;
  writes = λ w s. (refl, refl);
  reads = λ w s t e. rw e (ap some (take-append s t), drop-append s t);
}

-- ===== src/Client/Answers/Refusals.antt =====
-- The exceptions of the server's functions in src/server.cpp, as `updater_loop` meets them.
use mathlib.Core.Path.{subst}
use restuarant_ordering_csf.Base.{
  ◌!=◌, eq_sound, ℤ, ◌||◌, ◌≡◌, ◌≢◌, sym, [], Text, String, codes, arith, Lacks, Bool-cases,
  Option-cases, inl, inr,
}
use restuarant_ordering_csf.Except.{Result, ok, err, semantic_error}
use restuarant_ordering_csf.Model.{
  ItemStatus, OrderStatus, find_item, order_status_eq, item_status_eq,
}
use restuarant_ordering_csf.Message.{message_type_eq}
use restuarant_ordering_csf.OrderedMap
use restuarant_ordering_csf.Server.{
  Server, is_item_transition, process_item_update, process_order_update,
}
use restuarant_ordering_csf.Server.Updates.{
  process_item_update-accepted, process_order_update-accepted,
}

-- A string that a reply carries.
abbrev pub IsReplyText : Text → Type 0
IsReplyText str = (str ≢ []) × Lacks b'|' str

-- The exceptions of the server's functions are semantic errors.
pub data IsAnswerable : Result Server → Type 0 where
  accepted : (t : Server) → IsAnswerable (ok t)
  refused : (desc : String) → IsReplyText (codes desc) → IsAnswerable (err (semantic_error desc))

answered_with :
    (m : Result Server) (desc : String)
    → IsReplyText (codes desc)
    → m ≡ err (semantic_error desc)
    → IsAnswerable m
answered_with m desc text e = subst IsAnswerable (sym e) (refused desc text)

pub process_item_update-IsAnswerable :
    (order_id item_id : ℤ) (status : ItemStatus) (s : Server)
    → IsAnswerable (process_item_update order_id item_id status s)
unfolding process_item_update
process_item_update-IsAnswerable order_id item_id status s =
    elim (Option-cases (OrderedMap.find s.orders order_id)) [
      | inl missing ↦
          answered_with _ "order not found" ((λ e. cc), omega arith) (ground (arith, missing))
      | inr (order, has_order) ↦ elim (Option-cases (find_item order item_id)) [
        | inl missing ↦
            answered_with _ "item not found" ((λ e. cc), omega arith)
              (ground (arith, has_order, missing))
        | inr (item, has_item) ↦ elim (Bool-cases (is_item_transition item.status status)) [
          | inl forward ↦
              subst IsAnswerable
                (sym (
                  process_item_update-accepted order_id item_id status s (record {
                    order = order;
                    item = item;
                    has_order = has_order;
                    has_item = has_item;
                    forward = forward;
                  })))
                (accepted _)
          | inr backward ↦
              answered_with _ "invalid item status transition" ((λ e. cc), omega arith)
                (ground (arith, has_order, has_item, backward))
        ]
      ]
    ]

pub process_order_update-IsAnswerable :
    (order_id : ℤ) (status : OrderStatus) (s : Server)
    → IsAnswerable (process_order_update order_id status s)
unfolding process_order_update
process_order_update-IsAnswerable order_id status s =
    elim (Option-cases (OrderedMap.find s.orders order_id)) [
      | inl missing ↦
          answered_with _ "order not found" ((λ e. cc), omega arith) (ground (arith, missing))
      | inr (order, has_order) ↦
          elim (Bool-cases
            ((order.status != OrderStatus.done) || (status != OrderStatus.delivered))) [
              | inl wrong ↦
                  answered_with _ "invalid order status transition" ((λ e. cc), omega arith)
                    (ground (arith, has_order, wrong))
              | inr right ↦
                  let done = eq_sound order.status OrderStatus.done (ground arith) in
                  let delivered = eq_sound status OrderStatus.delivered (ground arith) in
                  subst IsAnswerable
                    (sym (
                      process_order_update-accepted order_id status s (record {
                        order = order;
                        has_order = has_order;
                        is_done = done;
                        to_delivered = delivered;
                      })))
                    (accepted _)
            ]
    ]

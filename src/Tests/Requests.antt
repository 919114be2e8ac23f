-- ===== src/Tests/Requests.antt =====
-- A server with one order, and the requests about it.
use restuarant_ordering_csf.Base.{
  pos, ◌≡◌, ◌≢◌, ◌↔◌, ◌⊎◌, refl, List, [], ◌∷◌, some, none, Text, codes, arith, true, false, ◌!=◌,
  ap, ◌++◌, sym, ◌∙◌,
}
use restuarant_ordering_csf.Except.{ok, ok-injective}
use restuarant_ordering_csf.Model.{
  Order, Item, find_item, ClientMode, ItemStatus, OrderStatus, update_item, set_item_status,
}
use restuarant_ordering_csf.Message.{
  Message, MessageType, message_type_eq, order_message, login_message, item_status_message,
  order_status_message,
}
use restuarant_ordering_csf.OrderedMap
use restuarant_ordering_csf.Server.{
  Server, init, admit, process_new_order, all_done, process_item_update, process_order_update,
}
use restuarant_ordering_csf.Server.Effects.{settled, post, post_all, item_notices}
use restuarant_ordering_csf.Server.Updates.{process_item_update_iff, process_order_update_iff}
use restuarant_ordering_csf.Server.Filed.{IsFiled, init-IsFiled, run-IsFiled}
use restuarant_ordering_csf.Server.Stuck.{preset_done-stuck}
use restuarant_ordering_csf.Server.Delivery.{cook, new_order-delivered}
use restuarant_ordering_csf.Server.Lifecycle.{all_new, AllCoherent, run-AllCoherent}
use restuarant_ordering_csf.Server.Requests.{Request, run}
use restuarant_ordering_csf.Io.{receive, parse_length_prefix}
use restuarant_ordering_csf.Numbers.{stoi}
use restuarant_ordering_csf.Util.{split}
use restuarant_ordering_csf.Wire.{decode}
use restuarant_ordering_csf.Wire.Names.{str_to_message_type, str_to_client_mode}
use restuarant_ordering_csf.Wire.Fields.{read_client_mode}
use restuarant_ordering_csf.PasswordDb.{authenticate, passwd_db}
use restuarant_ordering_csf.Client.{answer, login, updater_loop, chat}
use restuarant_ordering_csf.Client.Answers.{IsAnswered, request_of, answer-IsAnswered}
use restuarant_ordering_csf.Client.Threads.{
  login_iff, Requested, updater_loop-Requested, chat-without_login,
}
use restuarant_ordering_csf.ClientUtil.{receive_message, parse_positive_int}
use restuarant_ordering_csf.Updater.{order_new_request, read_items, read_item, updater_main}
use restuarant_ordering_csf.Updater.Orders.{Drafted, order_new_request-Drafted}
use restuarant_ordering_csf.Updater.Ends.{updater_main-ends}
use restuarant_ordering_csf.Tests.Data.{fries, lunch, buffer}

-- A day at the restaurant: the order is made, cooked and delivered.
abbrev day : List Request
day =
    Request.register 1
    ∷ Request.new_order lunch
    ∷ Request.item_update (pos 1000) (pos 7) ItemStatus.in_progress
    ∷ Request.item_update (pos 1000) (pos 7) ItemStatus.done
    ∷ Request.order_update (pos 1000) OrderStatus.delivered
    ∷ []

run-IsFiled_example : IsFiled (run init day)
run-IsFiled_example = run-IsFiled init day init-IsFiled

run-AllCoherent_example : AllCoherent (run init day)
unfolding all_new
run-AllCoherent_example = run-AllCoherent init day (tt, (refl, (tt, (tt, (tt, tt))))) tt

abbrev open_day : Server
open_day = record init { orders = (pos 1000, lunch) ∷ []; display_clients = 1 ∷ [] }

process_item_update_iff_example :
    (process_item_update (pos 1000) (pos 7) ItemStatus.in_progress open_day ≡ ok open_day) ↔ (
      (order : Order) × (item : Item) × (OrderedMap.find open_day.orders (pos 1000) ≡ some order)
      × (find_item order (pos 7) ≡ some item)
      × (((item.status ≡ ItemStatus.new) × (ItemStatus.in_progress ≡ ItemStatus.in_progress))
          ⊎ ((item.status ≡ ItemStatus.in_progress) × (ItemStatus.in_progress ≡ ItemStatus.done)))
      × (open_day ≡ record open_day {
        orders =
            OrderedMap.write
              (pos 1000)
              (settled ItemStatus.in_progress
                (update_item order (pos 7) (set_item_status ItemStatus.in_progress)))
              open_day.orders;
        queues =
            post_all open_day.display_clients
              (item_notices
                (pos 1000)
                (pos 7)
                ItemStatus.in_progress
                (update_item order (pos 7) (set_item_status ItemStatus.in_progress)))
              open_day.queues;
      }))
process_item_update_iff_example =
    process_item_update_iff (pos 1000) (pos 7) ItemStatus.in_progress open_day open_day

process_order_update_iff_example :
    (process_order_update (pos 1000) OrderStatus.delivered open_day ≡ ok open_day) ↔ (
      (order : Order) × (OrderedMap.find open_day.orders (pos 1000) ≡ some order)
      × (order.status ≡ OrderStatus.done)
      × (OrderStatus.delivered ≡ OrderStatus.delivered)
      × (open_day ≡ record open_day {
        orders = OrderedMap.erase (pos 1000) open_day.orders;
        queues =
            post open_day.display_clients
              (order_status_message MessageType.disp_order_update (pos 1000) OrderStatus.delivered)
              open_day.queues;
      }))
process_order_update_iff_example =
    process_order_update_iff (pos 1000) OrderStatus.delivered open_day open_day

abbrev cooking : Message
cooking = item_status_message MessageType.item_update (pos 1000) (pos 7) ItemStatus.in_progress

answer-IsAnswered_example :
    IsAnswered
      (request_of cooking)
      (cooking.kind != MessageType.quit)
      open_day
      (answer cooking open_day)
answer-IsAnswered_example = answer-IsAnswered cooking open_day

abbrev alice : Message
alice = login_message MessageType.login ClientMode.updater (codes "alice/foobar")

login_iff_example : (login alice ≡ ok (some ClientMode.updater)) ↔ (
    (MessageType.login ≡ MessageType.login)
    × (ClientMode.updater ≡ ClientMode.updater)
    × (ClientMode.updater ≢ ClientMode.invalid)
    × (authenticate (codes "alice/foobar") ≡ true))
login_iff_example = login_iff alice ClientMode.updater

updater_loop-Requested_example :
    Requested 3 open_day (updater_loop buffer 3 open_day (codes "0010QUIT|quit\n")).server
updater_loop-Requested_example = updater_loop-Requested buffer 3 open_day (codes "0010QUIT|quit\n")

abbrev knocking : Text
knocking = codes "0024LOGIN|UPDATER|bob/wrong\n"

abbrev bob : Message
bob = login_message MessageType.login ClientMode.updater (codes "bob/wrong")

bob_received : (receive_message buffer knocking).0 ≡ ok bob
unfolding receive_message receive parse_length_prefix stoi decode split str_to_message_type
    read_client_mode str_to_client_mode
bob_received = refl

wrong_password : authenticate (codes "bob/wrong") ≡ false
unfolding authenticate passwd_db
wrong_password = refl

chat-without_login_example :
    ((chat buffer 5 1 open_day knocking).server ≡ open_day)
    × ((chat buffer 5 1 open_day knocking).looping ≡ false)
chat-without_login_example =
    chat-without_login buffer 5 1 open_day knocking (λ msg received kind mode known.
      let same = ok-injective (sym received ∙ bob_received) in
      let bob_known : authenticate (codes "bob/wrong") ≡ true =
        sym (ap (λ (m : Message). authenticate m.str) same) ∙ known in
      absurd (cc wrong_password))

abbrev typed : List Text
typed = codes "1" ∷ codes "7" ∷ codes "Fries" ∷ codes "2" ∷ []

typed_order : order_new_request typed ≡ ok (order_message MessageType.order_new (some lunch), [])
unfolding order_new_request parse_positive_int stoi read_items read_item
typed_order = refl

order_new_request-Drafted_example :
    (d : Drafted (order_message MessageType.order_new (some lunch))) × (all_new d.order.items
      ≡ true)
order_new_request-Drafted_example =
    order_new_request-Drafted typed [] (order_message MessageType.order_new (some lunch))
      typed_order

abbrev session : List Text
session = codes "bob" ∷ codes "frotz" ∷ codes "order_new" ∷ typed ++ codes "quit" ∷ []

updater_main-ends_example : (updater_main buffer 9 session []).0 ≢ none
updater_main-ends_example = updater_main-ends buffer 9 session [] (omega arith)

-- The same lunch, but the fries are said to be done.
abbrev cooked_lunch : Order
cooked_lunch = record lunch { items = set_item_status ItemStatus.done fries ∷ [] }

cooked_lunch_done : all_done cooked_lunch.items ≡ true
unfolding all_done
cooked_lunch_done = refl

preset_done-stuck_example :
    OrderedMap.find
      (run (process_new_order cooked_lunch init).1 (
        Request.item_update (pos 1000) (pos 7) ItemStatus.done
        ∷ Request.order_update (pos 1000) OrderStatus.delivered
        ∷ [])).orders
      (pos 1000)
    ≡ some (admit (pos 1000) cooked_lunch)
preset_done-stuck_example =
    preset_done-stuck init cooked_lunch
      (Request.item_update (pos 1000) (pos 7) ItemStatus.done
        ∷ Request.order_update (pos 1000) OrderStatus.delivered
        ∷ [])
      init-IsFiled cooked_lunch_done

new_order-delivered_example :
    OrderedMap.find
      (run (process_new_order lunch init).1 (
        cook (pos 1000) lunch.items
        ++ Request.order_update (pos 1000) OrderStatus.delivered ∷ [])).orders
      (pos 1000)
    ≡ none
new_order-delivered_example =
    new_order-delivered init lunch init-IsFiled (λ e. cc) (refl, tt) (tt, tt)

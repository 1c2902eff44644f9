-- ===== src/Tests/FrontEnds.antt =====
-- The front ends of src/sut/register at concrete inputs.
use detsys_testkit.Base.{
  ◌≡◌, ◌≢◌, ◌↔◌, refl, arith, none, some, [], ◌∷◌, map, ok, exit, nat_eq, text_eq, if◌then◌else◌,
}
use detsys_testkit.Base.Dict
use detsys_testkit.Base.Text.{Text, text}
use detsys_testkit.Events.{client_request, internal_message, run}
use detsys_testkit.Register.Messages.{
  read, write, ack, value, internal_response, register1, register2, forward, reply,
}
use detsys_testkit.Register.Pending.{waiting}
use detsys_testkit.Register.Pending.Laws.{pending}
use detsys_testkit.Register.FrontEnd
use detsys_testkit.Register.FrontEnd.{FrontEnd, new_front_end}
use detsys_testkit.Register.FrontEnd.Consistent.{IsConsistent, new_front_end-IsConsistent}
use detsys_testkit.Register.FrontEnd.Replies.{receive_once, receive-exit_iff, receive-IsConsistent}
use detsys_testkit.Register.FrontEnd2
use detsys_testkit.Register.FrontEnd2.{FrontEnd2, new_front_end2}
use detsys_testkit.Register.FrontEnd2.Replies.{receive_twice}
use detsys_testkit.Register.FrontEnd3
use detsys_testkit.Register.FrontEnd3.{FrontEnd3, new_front_end3}
use detsys_testkit.Register.FrontEnd3.Replies.{response_of, receive_completing}
use detsys_testkit.Register.FrontEnd4
use detsys_testkit.Register.FrontEnd4.{FrontEnd4, new_front_end4, set_timer}
use detsys_testkit.Register.FrontEnd4.Awaiting.{
  view, answered, completes, view-remove_session, completes-remove_session,
}
use detsys_testkit.Register.FrontEnd4.Invariant.{
  IsTracked, new_front_end4-IsTracked, receive-IsTracked,
}
use detsys_testkit.Register.FrontEnd4.Serving.{receive_once_both, once_both}

-- A client's request, as it arrives.
abbrev client : Text
client = text "client:7"

abbrev asked4 : FrontEnd4
asked4 = (FrontEnd4.receive_client new_front_end4 0 client 7 (write 1)).0

abbrev asked : FrontEnd
asked = record {
  in_flight = (7, record { id = 0; at = 0 }) ∷ [];
  in_flight_session_to_client = (0, 7) ∷ [];
  next_session_id = 1;
}

-- Three responses, two of them of the first register: the third is the one that is replied.
receive_once_both_example :
    (fe' : FrontEnd4) × (run FrontEnd4.handle new_front_end4 (
        (0, client, client_request 7 (write 1))
        ∷ (1, register1, internal_message (internal_response 0 ack))
        ∷ (2, register1, internal_message (internal_response 0 ack))
        ∷ (3, register2, internal_message (internal_response 0 (value (5 ∷ []))))
        ∷ (4, register2, internal_message (internal_response 0 ack))
        ∷ [])
      ≡ ok (
        fe',
        (forward register1 (write 1) 0
              ∷ forward register2 (write 1) 0
              ∷ set_timer new_front_end4
              ∷ [])
            ∷ []
            ∷ []
            ∷ (reply 7 (value (5 ∷ [])) ∷ [])
            ∷ []
            ∷ [],
      ))
unfolding new_front_end4 once_both text_eq
receive_once_both_example =
    receive_once_both new_front_end4 0 client 7 (write 1)
      ((1, register1, ack)
        ∷ (2, register1, ack)
        ∷ (3, register2, value (5 ∷ []))
        ∷ (4, register2, ack)
        ∷ [])
      new_front_end4-IsTracked

view-remove_session_example :
    view (FrontEnd4.remove_session asked4 register1 0).0 0 ≡ some (7, register2 ∷ [])
unfolding FrontEnd4.receive_client new_front_end4 view answered Dict.lookup Dict.insert nat_eq
    pending text_eq
view-remove_session_example = view-remove_session asked4 register1 0 0

completes-remove_session_example : completes register1 (view asked4 0) ≡ (
    if (FrontEnd4.remove_session asked4 register1 0).2
    then some (FrontEnd4.remove_session asked4 register1 0).1
    else none)
completes-remove_session_example = completes-remove_session asked4 register1 0

sent4 :
    FrontEnd4.receive new_front_end4 0 client (client_request 7 (write 1))
    ≡ ok (
      asked4,
      forward register1 (write 1) 0 ∷ forward register2 (write 1) 0 ∷ set_timer new_front_end4 ∷ [],
    )
unfolding new_front_end4 FrontEnd4.receive FrontEnd4.receive_client
sent4 = refl

receive-IsTracked_example : IsTracked asked4
unfolding new_front_end4 FrontEnd4.receive
receive-IsTracked_example =
    receive-IsTracked new_front_end4 asked4 0 client (client_request 7 (write 1))
      (forward register1 (write 1) 0
        ∷ forward register2 (write 1) 0
        ∷ set_timer new_front_end4
        ∷ [])
      new_front_end4-IsTracked (omega arith) sent4

receive_once_example :
    (fe' : FrontEnd) × (run FrontEnd.handle new_front_end (
        (0, client, client_request 7 read)
        ∷ (1, register2, internal_message (internal_response 0 (value [])))
        ∷ (2, register1, internal_message (internal_response 0 (value (3 ∷ []))))
        ∷ [])
      ≡ ok (
        fe',
        (forward register1 read 0 ∷ forward register2 read 0 ∷ [])
            ∷ (reply 7 (value []) ∷ [])
            ∷ []
            ∷ [],
      ))
unfolding new_front_end Dict.lookup
receive_once_example =
    receive_once new_front_end 0 1 2 client register2 register1 7 read (value []) (value (3 ∷ []))
      refl

sent :
    FrontEnd.receive new_front_end 0 client (client_request 7 read)
    ≡ ok (asked, forward register1 read 0 ∷ forward register2 read 0 ∷ [])
unfolding new_front_end FrontEnd.receive FrontEnd.receive_client FrontEnd.new_session_id Dict.lookup
    Dict.insert
sent = refl

receive-IsConsistent_example : IsConsistent asked
unfolding new_front_end
receive-IsConsistent_example =
    receive-IsConsistent new_front_end asked 0 client (client_request 7 read)
      (forward register1 read 0 ∷ forward register2 read 0 ∷ []) new_front_end-IsConsistent
      (omega arith) sent

receive-exit_iff_example :
    (FrontEnd.receive asked 1 client (client_request 7 read) ≡ exit)
    ↔ (Dict.lookup 7 asked.in_flight ≢ none)
receive-exit_iff_example = receive-exit_iff asked 1 client 7 read

-- Both responses are of the first register.
receive_twice_example :
    (fe' : FrontEnd2) × (run FrontEnd2.handle new_front_end2 (
        (0, client, client_request 7 (write 1))
        ∷ (1, register1, internal_message (internal_response 0 ack))
        ∷ (2, register1, internal_message (internal_response 0 ack))
        ∷ (3, register2, internal_message (internal_response 0 ack))
        ∷ [])
      ≡ ok (
        fe',
        (forward register1 (write 1) 0 ∷ forward register2 (write 1) 0 ∷ [])
            ∷ []
            ∷ (reply 7 ack ∷ [])
            ∷ []
            ∷ [],
      ))
unfolding new_front_end2
receive_twice_example =
    receive_twice new_front_end2 0 1 2 3 client register1 register1 register2 7 (write 1) ack ack
      ack

-- Session 4 of client 7 waits for the second register only.
abbrev awaiting : FrontEnd3.FrontEnd3
awaiting = record {
  on_going = waiting register2 (write 1) 4 8 ∷ [];
  in_flight = (4, 7) ∷ [];
  next_session_id = 5;
}

receive_completing_example :
    run FrontEnd3.handle awaiting
      (map (response_of 4) ((9, register2, ack) ∷ (10, register2, ack) ∷ []))
    ≡ ok (
      record { on_going = []; in_flight = []; next_session_id = 5 },
      (reply 7 ack ∷ []) ∷ (reply 0 ack ∷ []) ∷ [],
    )
unfolding Dict.lookup Dict.erase nat_eq
receive_completing_example =
    receive_completing awaiting 4 7 9 register2 ack ((10, register2, ack) ∷ []) refl
      ((λ e. refl), tt)

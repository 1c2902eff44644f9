-- ===== src/Tests/Histories.antt =====
-- A history of the fourth front end: two clients, responses in another order than the requests, one of
-- them twice, and a timer in between.
use detsys_testkit.Base.{◌≡◌, arith, List, [], ◌∷◌, ok, map, nat_eq, text_eq}
use detsys_testkit.Events.{run}
use detsys_testkit.Base.Text.{text}
use detsys_testkit.Register.Messages.{Out, read, write, ack, value, register1, register2, reply}
use detsys_testkit.Register.FrontEnd4.{FrontEnd4, new_front_end4}
use detsys_testkit.Register.FrontEnd4.Awaiting.{answered, completes}
use detsys_testkit.Register.FrontEnd4.Invariant.{IsTracked, new_front_end4-IsTracked}
use detsys_testkit.Register.FrontEnd4.Serving.Histories.{
  Input, asks, responds, fires, react, replies_of, serve, run-serve,
}

abbrev history : List Input
history =
    asks 0 (text "client:7") 7 (write 1)
    ∷ asks 1 (text "client:8") 8 read
    ∷ responds 2 register2 1 (value [])
    ∷ responds 3 register1 0 ack
    ∷ responds 3 register1 0 ack
    ∷ fires 6000000000
    ∷ responds 6000000001 register1 1 (value (1 ∷ []))
    ∷ responds 6000000002 register2 0 ack
    ∷ []

run-serve_example :
    (fe' : FrontEnd4) × (outs : List (List Out)) × (run react new_front_end4 history
      ≡ ok (fe', outs))
    × IsTracked fe'
    × (map replies_of outs
        ≡ [] ∷ [] ∷ [] ∷ [] ∷ [] ∷ [] ∷ (reply 8 (value (1 ∷ [])) ∷ []) ∷ (reply 7 ack ∷ []) ∷ [])
unfolding serve new_front_end4 answered completes nat_eq text_eq
run-serve_example = run-serve new_front_end4 history new_front_end4-IsTracked (omega arith)

-- ===== src/Register/Deployed.antt =====
-- The reactors of the two programs that run the register system: src/sut/register/cmd/main.go, behind HTTP, and
-- src/sut/register/executor/executorcmd.go, in the event loop.
use detsys_testkit.Base.{List, [], ◌∷◌, ◌==◌, text_eq, if◌then◌else◌, Result, ok, panic}
use detsys_testkit.Base.Text.{Text, text}
use detsys_testkit.Register.Store.{Register, new_register}
use detsys_testkit.Register.FrontEnd.{FrontEnd, new_front_end}
use detsys_testkit.Register.FrontEnd4.{FrontEnd4, new_front_end4}

pub data Reactor : Type 0 where
  front_end : FrontEnd → Reactor
  front_end4 : FrontEnd4 → Reactor
  register : Register → Reactor

-- `constructor` of src/sut/register/cmd/main.go, of the type of a reactor.
unfoldable pub construct_type : Text → Result Reactor
unfolding text_eq
construct_type name =
    if name == text "frontend"
    then ok (front_end new_front_end)
    else if name == text "register"
    then ok (register new_register)
    else panic

-- `constructor` of the executor, of the name of a reactor: each that is no front end is a register.
unfoldable pub construct : Text → Reactor
unfolding text_eq
construct name =
    if name == text "frontend" then front_end4 new_front_end4 else register new_register

abbrev pub peers : List Text
peers = text "frontend" ∷ text "register1" ∷ text "register2" ∷ []

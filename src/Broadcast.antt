-- ===== src/Broadcast.antt =====
-- The reliable broadcast of src/sut/broadcast/broadcast.go, in its five rounds.
pub mod Laws
pub mod Codec
pub mod Acknowledged
use detsys_testkit.Base.{
  ℕ, Bool, true, false, List, [], ◌∷◌, ◌++◌, ◌&&◌, ◌||◌, not, ◌==◌, Eq, text_eq, if◌then◌else◌,
  Result, ok, panic, exit, ◌>>=◌,
}
use detsys_testkit.Base.Dict
use detsys_testkit.Base.Dict.{Dict}
use detsys_testkit.Base.Text.{Text, text}
use detsys_testkit.Events.{
  Time, Duration, InEvent, internal_message, OutEvent, message, Args, singleton, set,
}

-- The rounds are the first five values of a Go `int`; the last constructor is any other value.
pub data Round : Type 0 where
  simple_deliv retry_deliv redun_deliv ack_deliv classic_deliv unknown_round : Round

Round-discrete : Discrete Round
Round-discrete = hlevel

instance unfoldable pub round_eq : Eq Round
unfolding Round-discrete
round_eq = record { dec = Round-discrete }

pub record Node : Type 0 where
  pub log : Text
  pub neighbours : Dict Text Bool
  pub round : Round

-- The package has no requests of its own. The last constructor of `Message` is a foreign type's.
pub data Request : Type 0 where
  foreign_request : Text → Request

pub data Response : Type 0 where
  foreign_response : Text → Response

pub data Message : Type 0 where
  broadcast : Text → Message
  ack : Message
  foreign_message : Text → Message

unfoldable pub message_event : Message → Text
message_event (broadcast content) = text "Broadcast"
message_event ack = text "Ack"
message_event (foreign_message name) = name

abbrev pub Event : Type 0
Event = InEvent Request Message

abbrev pub Out : Type 0
Out = OutEvent Response Message

unfoldable pub new_node_a : Round → Node
new_node_a round = record {
  log = text "Hello world!";
  neighbours = (text "B", true) ∷ (text "C", true) ∷ [];
  round = round;
}

-- The `switch` of `NewNode`.
unfoldable pub starts_broadcasting : Round → Result Bool
starts_broadcasting simple_deliv = ok false
starts_broadcasting retry_deliv = ok false
starts_broadcasting classic_deliv = ok false
starts_broadcasting redun_deliv = ok true
starts_broadcasting ack_deliv = ok true
starts_broadcasting unknown_round = panic

unfoldable pub new_node : Round → Text → Result Node
unfolding starts_broadcasting round_eq Dict.insert text_eq
new_node round neighbour = starts_broadcasting round >>= λ flag.
    let one = Dict.insert neighbour flag [] in
    ok (record {
      log = [];
      neighbours =
          if round == classic_deliv
          then Dict.insert neighbour flag (Dict.insert (text "A") flag one)
          else one;
      round = round;
    })

abbrev send : List Text → Message → Out
send to m = record { to = to; args = message m }

-- The events that answer a `Broadcast`.
answers : Node → Text → Text → List Out
answers n from content =
    if n.round == ack_deliv
    then send (singleton from) ack ∷ []
    else if n.round == classic_deliv && not (n.log == content)
    then send (set (Dict.keys n.neighbours)) (broadcast content) ∷ []
    else []

-- `Node.Receive`
unfoldable pub receive : Node → Time → Text → Event → Result (Node × List Out)
unfolding answers round_eq text_eq set singleton Dict.keys Dict.insert
receive n at from (internal_message (broadcast content)) =
    ok (record n { log = content }, answers n from content)
receive n at from (internal_message ack) =
    if n.round == ack_deliv
    then ok (record n { neighbours = Dict.insert from false n.neighbours }, [])
    else panic
receive n at from _ = exit

-- `Node.Tick` sends nothing.
unfoldable pub tick : Node → Time → List Out
tick n at = []

-- The neighbours to which `Timer` sends.
unfoldable pub recipients : Dict Text Bool → List Text
recipients [] = []
recipients ((name, flag) ∷ rest) = if flag then name ∷ recipients rest else recipients rest

-- The rounds that send to a neighbour once.
abbrev sends_once : Round → Bool
sends_once round = round == simple_deliv || round == classic_deliv

-- `Timer` takes down the flag of each neighbour to which it sends.
unfoldable pub take_down : Dict Text Bool → Dict Text Bool
take_down [] = []
take_down ((name, flag) ∷ rest) = (name, false) ∷ take_down rest

-- 500ms
abbrev pub period : Duration
period = 500000000

abbrev set_timer : Out
set_timer = record { to = singleton (text "scheduler"); args = Args.timer period }

-- `Node.Timer`: a node that has heard nothing yet sends to nobody.
unfoldable pub timer : Node → Time → Node × List Out
unfolding round_eq text_eq set singleton recipients take_down
timer n at =
    let silent = n.log == [] in
    (
      if sends_once n.round && not silent
          then record n { neighbours = take_down n.neighbours }
          else n,
      send (set (if silent then [] else recipients n.neighbours)) (broadcast n.log)
          ∷ (if n.round == classic_deliv then [] else set_timer ∷ []),
    )

-- `Node.Init`
unfoldable pub init : Node → List Out
unfolding round_eq text_eq singleton
init n =
    if n.round == classic_deliv
    then if n.log == text "Hello world!" then set_timer ∷ [] else []
    else set_timer ∷ []

-- ===== src/Debugger/Application/Widgets.antt =====
-- What `main` of src/debugger/cmd/detsys-debug/main.go puts into the table of events and the list of reactors, and
-- what it makes of keys and arguments. How a time and a duration are printed, the number of days that the
-- `float64` of a duration comes to, and `strconv.Atoi` are parameters.
use detsys_testkit.Base.{
  ℕ, zero, suc, ◌+◌, ◌-◌, ◌*◌, ◌%◌, ◌≤◌, Bool, ◌||◌, List, [], ◌∷◌, ◌++◌, Option, none, some, ltb,
  ◌==◌, nat_eq, text_eq, length, if◌then◌else◌, Result, ok, panic, exit, arith, All, ◌>>=◌, map,
}
use detsys_testkit.Base.Decimal.{decimal}
use detsys_testkit.Base.Text.{Text, text}
use detsys_testkit.Debugger.Repeat.{ℤ}
use detsys_testkit.Debugger.Trace.{NetworkEvent}
use detsys_testkit.Debugger.Application.{DebugApplication, go_to_from}
use detsys_testkit.Events.{Time, Duration}

abbrev pub headers : List Text
headers = text "Event" ∷ text "From" ∷ text "Sent" ∷ text "To" ∷ text "Received" ∷ text "Time" ∷ []

-- Nanoseconds of 24 hours.
abbrev pub day : Duration
day = 24 * 60 * 60 * 1000000000

-- A cell of the table, and whether it is grey.
pub record Cell : Type 0 where
  pub content : Text
  pub grey : Bool

module _ (format_time : Time → Text) (duration_text : Duration → Text) (days_of : Duration → ℕ)
    (since_1970 : Time → Duration) where
  -- `displayDuration`, where `Truncate` takes off what is no whole day.
  unfoldable pub display_duration : Duration → Text
  unfolding decimal nat_eq
  display_duration dur =
      if ltb (days_of dur) 1
      then duration_text dur
      else if days_of dur == 1
      then text "1 day " ++ duration_text (dur - dur % day)
      else decimal (days_of dur) ++ (text " days " ++ duration_text (dur - dur % day))

  -- The column `Time`: the simulated time for the first event, and the time since 1970 for the others.
  unfoldable pub time_text : ℕ → Time → Text
  unfolding display_duration
  time_text zero simulated = format_time simulated
  time_text (suc row) simulated = display_duration (since_1970 simulated)

  -- The cells of an event, in the order of the headers.
  unfoldable pub event_cells : ℕ → NetworkEvent → List Cell
  unfolding time_text decimal
  event_cells row event =
      map (λ content. record { content = content; grey = event.dropped })
        (event.message
          ∷ event.from
          ∷ decimal event.sent_at
          ∷ event.to
          ∷ decimal event.recv_at
          ∷ time_text row event.simulated
          ∷ [])

-- A reactor in the list, with the key that chooses it: the digits from 1 to 9, and then a space.
unfoldable pub shortcut : ℕ → ℕ
shortcut i = if ltb i 9 then i + 49 else 32

unfoldable pub items : ℕ → List Text → List (Text × ℕ)
unfolding shortcut
items i [] = []
items i (c ∷ reactors) = (c, shortcut i) ∷ items (i + 1) reactors

-- The loop that looks for the longest name.
unfoldable pub longest_reactor : ℕ → List Text → ℕ
longest_reactor longest [] = longest
longest_reactor longest (c ∷ reactors) =
    longest_reactor (if ltb longest (length c) then length c else longest) reactors

-- What a key does: it stops the application, goes on to the widgets, or does so with a row selected.
pub data Key : Type 0 where
  stops : Key
  passes : Key
  selects : ℕ → Key

unfoldable pub input_capture : DebugApplication → ℕ → Result Key
unfolding go_to_from nat_eq
input_capture da rune =
    if rune == b'q'
    then ok stops
    else if rune == b'f'
    then (go_to_from da >>= λ row. ok (selects row))
    else ok passes

-- What the arguments behind the name of the program ask for.
pub data Started : Type 0 where
  version : Started
  debugs : ℤ → ℤ → Started

-- The arguments in `main`: one that is missing panics, and one that is no number gets the help and code 1.
unfoldable pub arguments : (Text → Option ℤ) → List Text → Result Started
unfolding text_eq
arguments atoi [] = panic
arguments atoi (first ∷ rest) =
    if first == text "--version" || first == text "-v" then ok version else elim (atoi first) [
      | none ↦ exit
      | some test_id ↦ elim rest [
        | [] ↦ panic
        | second ∷ _ ↦ elim (atoi second) [ none ↦ exit | some run_id ↦ ok (debugs test_id run_id) ]
      ]
    ]

-- The width that is found is the least one in which every name has room.
longest_reactor-le :
    (reactors : List Text) (longest : ℕ)
    → (longest ≤ longest_reactor longest reactors)
      × All (λ c. length c ≤ longest_reactor longest reactors) reactors
unfolding longest_reactor
longest_reactor-le [] longest = (omega arith, tt)
longest_reactor-le (c ∷ reactors) longest =
    let (least, room) =
      longest_reactor-le reactors (if ltb longest (length c) then length c else longest) in
    (ground (arith, least), (ground (arith, least), room))

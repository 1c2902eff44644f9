-- ===== src/Debugger/Trace.antt =====
-- What the debugger reads of a run: src/debugger/internal/debugger.go. The rows of a query are a parameter,
-- a row being none when `Scan` fails; so are JSON and its merge patches (`jsonpatch.MergePatch`). The state
-- of a reactor that is not in a map is the empty text.
pub mod Recorded
pub mod Heaps
pub mod Crashes
use detsys_testkit.Base.{
  ℕ, zero, suc, ◌+◌, Bool, true, false, not, ◌&&◌, List, [], ◌∷◌, ◌++◌, map, Option, none, some,
  ◌==◌, ltb, nat_eq, text_eq, if◌then◌else◌, Result, ok, panic, ◌>>=◌, some_or_panic,
}
use detsys_testkit.Base.Dict
use detsys_testkit.Base.Dict.{Dict}
use detsys_testkit.Base.Text.{Text, text}

pub record HeapDiff : Type 0 where
  pub reactor : Text
  pub at : ℕ
  pub diff : Text

-- What `lib.DeploymentInfoForTest` tells of a reactor, as far as it is used.
pub record Deployment : Type 0 where
  pub reactor : Text
  pub args : Text

-- `GetInitHeap`: an error of the query is a panic.
unfoldable pub get_init_heap : Option (List Deployment) → Result (List HeapDiff)
get_init_heap none = panic
get_init_heap (some deploys) =
    ok (map (λ dep. record { reactor = dep.reactor; at = 0; diff = dep.args }) deploys)

-- The loop over the rows, each of which is scanned.
abbrev pub scan_all : {A : Type 0} → List (Option A) → Result (List A)
scan_all [] = ok []
scan_all (row ∷ rows) = some_or_panic row >>= λ v. scan_all rows >>= λ vs. ok (v ∷ vs)

-- `GetHeapTrace`
unfoldable pub get_heap_trace : List (Option HeapDiff) → Result (List HeapDiff)
get_heap_trace = scan_all

pub record NetworkEvent : Type 0 where
  pub message : Text
  pub args : Text
  pub from : Text
  pub sent_at : ℕ
  pub to : Text
  pub recv_at : ℕ
  pub dropped : Bool
  pub simulated : ℕ

-- `GetNetworkTrace`: timers that were dropped are left out.
unfoldable pub get_network_trace : List (Option NetworkEvent) → Result (List NetworkEvent)
unfolding text_eq
get_network_trace [] = ok []
get_network_trace (row ∷ rows) = some_or_panic row >>= λ event. get_network_trace rows >>= λ trace.
    ok (if not (event.message == text "timer" && event.dropped) then event ∷ trace else trace)

-- A copy of the state of every reactor.
abbrev pub Heap : Type 0
Heap = Dict Text Text

abbrev pub state_of : Option Text → Text
state_of none = []
state_of (some state) = state

-- The maps of the loops over the initial states and over the changes: later entries replace earlier ones.
unfoldable pub first_heap : Heap → List HeapDiff → Heap
unfolding text_eq
first_heap first [] = first
first_heap first (init ∷ inits) = first_heap (Dict.insert init.reactor init.diff first) inits

unfoldable pub change_map : Dict ℕ HeapDiff → List HeapDiff → Dict ℕ HeapDiff
unfolding nat_eq
change_map changes [] = changes
change_map changes (hd ∷ diffs) = change_map (Dict.insert hd.at hd changes) diffs

module _ (merge_patch : Text → Text → Option Text) where
  -- `applyDiff`
  unfoldable pub apply_diff : Text → Text → Result Text
  apply_diff original diff = some_or_panic (merge_patch original diff)

  -- The change of one event, when it has one.
  unfoldable pub change : Dict ℕ HeapDiff → Heap → NetworkEvent → Result Heap
  unfolding apply_diff nat_eq text_eq
  change changes current event = elim (Dict.lookup event.recv_at changes) [
    | none ↦ ok current
    | some hd ↦ apply_diff (state_of (Dict.lookup hd.reactor current)) hd.diff >>= λ new.
        ok (Dict.insert hd.reactor new current)
  ]

  -- The loop over the events: the copies after each of them.
  unfoldable pub heaps_from : Dict ℕ HeapDiff → Heap → List NetworkEvent → Result (List Heap)
  unfolding change
  heaps_from changes current [] = ok []
  heaps_from changes current (event ∷ network) = change changes current event >>= λ next.
      heaps_from changes next network >>= λ rest. ok (next ∷ rest)

  -- `Heaps`, of what the queries gave.
  unfoldable pub heaps : List HeapDiff → List HeapDiff → List NetworkEvent → Result (List Heap)
  unfolding first_heap change_map heaps_from
  heaps inits changes network =
      let first : Heap = first_heap [] inits in
      heaps_from (change_map [] changes) first network >>= λ rest. ok (first ∷ rest)

-- `Max`
unfoldable pub max : ℕ → ℕ → ℕ
max x y = if ltb x y then y else x

-- What `GetCrashes` tells apart of a fault.
pub data FaultArgs : Type 0 where
  crash : Text → ℕ → FaultArgs
  other : FaultArgs

-- The rows of `GetCrashes`: more than one is a panic, as is a blob that is no list of faults.
unfoldable pub scan_faults : List (Option (List FaultArgs)) → Result (List FaultArgs)
scan_faults [] = ok []
scan_faults (row ∷ []) = some_or_panic row
scan_faults (row ∷ next ∷ rows) = panic

abbrev pub names_at : Option (List Text) → List Text
names_at none = []
names_at (some names) = names

unfoldable pub crashes_from : Dict ℕ (List Text) → List FaultArgs → Dict ℕ (List Text)
unfolding nat_eq
crashes_from crashes [] = crashes
crashes_from crashes (crash from at ∷ faults) =
    crashes_from (Dict.insert at (names_at (Dict.lookup at crashes) ++ from ∷ []) crashes) faults
crashes_from crashes (other ∷ faults) = crashes_from crashes faults

-- `GetCrashes`
unfoldable pub get_crashes : List (Option (List FaultArgs)) → Result (Dict ℕ (List Text))
unfolding scan_faults crashes_from
get_crashes rows = scan_faults rows >>= λ faults. ok (crashes_from [] faults)

-- A row of the log lines of a step: it cannot be scanned, it is NULL, or it holds JSON, which
-- `json.Unmarshal` reads as a list of entries, or not.
pub data LogRow : Type 0 where
  unscannable : LogRow
  null : LogRow
  lines : Option (List Text) → LogRow

-- `GetLogMessages`
unfoldable pub get_log_messages : List LogRow → Result (List Text)
get_log_messages [] = ok []
get_log_messages (unscannable ∷ rows) = panic
get_log_messages (null ∷ rows) = get_log_messages rows
get_log_messages (lines log ∷ rows) =
    some_or_panic log >>= λ entries. get_log_messages rows >>= λ logs. ok (entries ++ logs)

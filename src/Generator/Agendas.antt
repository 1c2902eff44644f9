-- ===== src/Generator/Agendas.antt =====
-- What `unmarshal` of src/lib/marshaler.go makes of the entries that the generator writes to an agenda.
use detsys_testkit.Base.{◌≡◌, ◌<◌, refl, text_eq, some, List, [], ◌∷◌, All, map, Result, ok, ◌>>=◌}
use detsys_testkit.Base.Text.{text}
use detsys_testkit.Base.Decimal.{uint64_mod}
use detsys_testkit.Events.{InEvent, client_request, internal_message, nil_event}
use detsys_testkit.Scheduled.{Marshaler, ScheduledEvent, unmarshal}
use detsys_testkit.Scheduled.Clients.{parse_client_id-client_name}
use detsys_testkit.Register.Messages.{client_name}
use detsys_testkit.Generator.{Codec, AgendaItem, agenda_item, agenda_items}

module _ {S Raw Req Msg : Type 0} (codec : Codec S Raw Req Msg) (m : Marshaler Raw Req Msg) where
  -- The events of the entries, as they are decoded one after the other.
  pub events_of : List (AgendaItem Raw) → Result (List (InEvent Req Msg))
  events_of [] = ok []
  events_of (item ∷ items) = unmarshal m item.kind item.event item.from item.args >>= λ event.
      events_of items >>= λ events. ok (event ∷ events)

  -- The codec of the system reads back what it writes of a request or message, and a request comes
  -- from the client of its id.
  abbrev pub IsReadable : ScheduledEvent Req Msg → Type 0
  IsReadable entry = elim entry.event [
    | client_request id request ↦
        (entry.from ≡ client_name id)
        × (id < uint64_mod)
        × ((raw : Raw) × (codec.marshal_request request ≡ some raw)
            × (m.unmarshal_request (codec.request_event request) raw ≡ ok request))
    | internal_message message ↦
        (raw : Raw) × (codec.marshal_message message ≡ some raw)
        × (m.unmarshal_message (codec.message_event message) raw ≡ ok message)
    | nil_event ↦ ⊥
  ]

  item_lem :
      (entry : ScheduledEvent Req Msg) (event : InEvent Req Msg)
      → entry.event ≡ event
      → IsReadable (record entry { event = event })
      → (item : AgendaItem Raw) × (agenda_item codec entry ≡ ok item)
        × (unmarshal m item.kind item.event item.from item.args ≡ ok event)
        × (item.at ≡ entry.at)
        × (item.to ≡ entry.to)
  unfolding agenda_item unmarshal text_eq
  item_lem entry (client_request id request) same (from, small, (raw, e, f)) = (
    record {
      kind = text "invoke";
      event = codec.request_event request;
      args = raw;
      from = entry.from;
      to = entry.to;
      at = entry.at;
    },
    rw (same, agenda_item) (rw (e) refl),
    rw (f) (rw (from) (rw (parse_client_id-client_name id small) refl)),
    refl,
    refl,
  )
  item_lem entry (internal_message message) same (raw, e, f) = (
    record {
      kind = text "message";
      event = codec.message_event message;
      args = raw;
      from = entry.from;
      to = entry.to;
      at = entry.at;
    },
    rw (same, agenda_item) (rw (e) refl),
    rw (f) refl,
    refl,
    refl,
  )
  item_lem entry nil_event same h = absurd h

  -- For an agenda without nil events, whose requests come each from the client of its id, a uint64,
  -- and whose requests and messages the codec of the system reads back, every entry is written, at
  -- its time and for its receiver, in the order of the agenda, and decoding the kinds, names,
  -- senders and arguments of what was written gives the events of the agenda.
  pub events_of-agenda_items :
      (agenda : List (ScheduledEvent Req Msg))
      → All IsReadable agenda
      → (items : List (AgendaItem Raw)) × (agenda_items codec agenda ≡ ok items)
        × (events_of items ≡ ok (map (λ entry. entry.event) agenda))
        × (map (λ item. item.at) items ≡ map (λ entry. entry.at) agenda)
        × (map (λ item. item.to) items ≡ map (λ entry. entry.to) agenda)
  unfolding agenda_items events_of
  events_of-agenda_items [] h = ([], refl, refl, refl, refl)
  events_of-agenda_items (entry ∷ agenda) (here, h) =
      let (item, e, f, at, to) = item_lem entry entry.event refl here in
      let (items, g, k, ats, tos) = events_of-agenda_items agenda h in
      (
        item ∷ items,
        rw (e) (rw (g) refl),
        rw (f) (rw (k) refl),
        (λ i. at i ∷ ats i),
        λ i. to i ∷ tos i,
      )

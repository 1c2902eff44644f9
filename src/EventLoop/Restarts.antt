-- ===== src/EventLoop/Restarts.antt =====
-- What becomes of the reactors: `AdminResetReactors` of src/executor-event-loop/eventloop.go against
-- the case "fault" of `processEnvelope`, and `Reset` of executor.go.
use detsys_testkit.Base.{ℕ, ◌≡◌, ◌≢◌, refl, arith, false, List, [], some, text_eq, ok}
use detsys_testkit.Base.Text.{Text, text}
use detsys_testkit.Base.Dict
use detsys_testkit.Base.Dict.{lookup-insert_self}
use detsys_testkit.Topology
use detsys_testkit.Topology.Deterministic.{reactor-insert}
use detsys_testkit.EventLoop.Clock.{incr}
use detsys_testkit.EventLoop.Executor.{
  Sut, Executor, Message, process_envelope, process_fault, rebuild, write_all, reset,
}
use detsys_testkit.EventLoop.Loop.{
  EventLoop, command, said, admin_reset_reactors, process_admin, step,
}

module _ {S Raw Req Msg Resp : Type 0} (sut : Sut S Raw Req Msg Resp) where
  -- The command to reset the reactors is answered with "Reactors restarted", and the executor, with
  -- the state of every reactor in it, is as it was.
  pub step-admin_reset_reactors :
      (el : EventLoop S Raw)
      → step sut el (command admin_reset_reactors)
        ≡ ok (
          record el { logical_time = incr el.logical_time },
          said (text "Reactors restarted\n"),
          false,
        )
  unfolding step process_admin reset
  step-admin_reset_reactors el = refl

  -- A fault "restart" of a reactor that has a buffer puts a reactor as it is built into the place of the
  -- one named, keeps the other reactors, and is answered without events; what the constructor
  -- writes stays in the buffer.
  pub process_envelope_restart :
      (ex : Executor S) (msg : Message Raw) (corr_id : ℕ) (name : Text) {lw : List Text}
      → Dict.lookup name ex.buffers ≡ some lw
      → msg.kind ≡ text "fault"
      → sut.fault_request msg.message ≡ ok (record { reactor = name; event = text "restart" })
      → (ex' : Executor S) × (process_envelope sut ex msg corr_id
          ≡ ok (ex', record { kind = text "Events"; message = sut.encode_events [] corr_id }, []))
        × (Topology.reactor ex'.topology name ≡ ok (sut.build name).0)
        × (Dict.lookup name ex'.buffers ≡ some (write_all lw (sut.build name).1))
        × ((other : Text)
            → other ≢ name
            → Topology.reactor ex'.topology other ≡ Topology.reactor ex.topology other)
  unfolding process_envelope process_fault rebuild text_eq
  process_envelope_restart ex msg corr_id name {lw} b k f = (
    record ex {
      buffers = Dict.insert name (write_all lw (sut.build name).1) ex.buffers;
      topology = Topology.insert ex.topology name (sut.build name).0;
    },
    rw (k) (rw (f) (rw (b, rebuild) refl)),
    ground (arith, reactor-insert ex.topology name name (sut.build name).0),
    lookup-insert_self name (write_all lw (sut.build name).1) ex.buffers,
    λ other ne. ground (arith, reactor-insert ex.topology name other (sut.build name).0),
  )

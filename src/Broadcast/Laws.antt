-- ===== src/Broadcast/Laws.antt =====
-- To whom a node sends: independent of the map's order, once in the simple and the classic round, and
-- until the acknowledgement in the round of acknowledgements.
use mathlib.Core.List.{Perm, Permᴰ}
use mathlib.Core.List.Permᴰ
use mathlib.Core.Logic.{∥∥₁_map}
use mathlib.Core.Path.{subst}
use detsys_testkit.Base.{
  ◌≡◌, ◌≢◌, refl, Bool, true, false, inl, inr, [], ◌∷◌, arith, ◌==◌, text_eq, if◌then◌else◌,
  Bool-cases,
}
use detsys_testkit.Base.Dict.{Dict}
use detsys_testkit.Base.Text.{Text}
use detsys_testkit.Base.Sort.{sort_of_Perm}
use detsys_testkit.Events.{Time, set}
use detsys_testkit.Broadcast.{
  Node, broadcast, round_eq, classic_deliv, timer, recipients, take_down, send, set_timer,
  sends_once,
}

recipients-cons :
    (a : Text × Bool) (d d' : Dict Text Bool)
    → Permᴰ (recipients d) (recipients d')
    → Permᴰ (recipients (a ∷ d)) (recipients (a ∷ d'))
unfolding recipients
recipients-cons (name, true) d d' p = Permᴰ.cons refl p
recipients-cons (name, false) d d' p = p

recipients-swap :
    (a b : Text × Bool) (d : Dict Text Bool)
    → Permᴰ (recipients (a ∷ b ∷ d)) (recipients (b ∷ a ∷ d))
unfolding recipients
recipients-swap (j, true) (k, true) d = Permᴰ.swap refl refl
recipients-swap (j, true) (k, false) d = Permᴰ.refl _
recipients-swap (j, false) (k, true) d = Permᴰ.refl _
recipients-swap (j, false) (k, false) d = Permᴰ.refl _

recipients_of_Permᴰ : {d d' : Dict Text Bool} → Permᴰ d d' → Permᴰ (recipients d) (recipients d')
recipients_of_Permᴰ Permᴰ.nil = Permᴰ.refl _
recipients_of_Permᴰ (Permᴰ.cons {a = a} {l₁ = l₁} {l₂ = l₂} e p) =
    subst (λ x. Permᴰ (recipients (a ∷ l₁)) (recipients (x ∷ l₂))) e
      (recipients-cons a l₁ l₂ (recipients_of_Permᴰ p))
recipients_of_Permᴰ (Permᴰ.swap {a = a} {b = b} {b' = b'} {l = l} e f) =
    subst (λ x. Permᴰ (recipients (a ∷ b ∷ l)) (recipients (x ∷ b' ∷ l))) f
      (subst (λ x. Permᴰ (recipients (a ∷ b ∷ l)) (recipients (b ∷ x ∷ l))) e
        (recipients-swap a b l))
recipients_of_Permᴰ (Permᴰ.trans p q) = Permᴰ.trans (recipients_of_Permᴰ p) (recipients_of_Permᴰ q)

-- In whatever order the map of neighbours is iterated, the timer of a broadcast node sends the same
-- events.
pub timer_of_Perm :
    (n : Node) (d : Dict Text Bool) (at : Time)
    → Perm n.neighbours d
    → (timer n at).1 ≡ (timer (record n { neighbours = d }) at).1
unfolding timer set
timer_of_Perm n d at p =
    let same = sort_of_Perm (∥∥₁_map p recipients_of_Permᴰ) in
    elim (Bool-cases (n.log == [])) [
      | inl silent ↦ rw silent refl
      | inr heard ↦ rw heard (rw same refl)
    ]

recipients-take_down : (d : Dict Text Bool) → recipients (take_down d) ≡ []
unfolding recipients take_down
recipients-take_down [] = refl
recipients-take_down (_ ∷ d) = recipients-take_down d

-- In the rounds that send once, a node that has something to send sends to nobody when its timer
-- goes off the second time.
pub timer_twice :
    (n : Node) (at at' : Time)
    → sends_once n.round ≡ true
    → n.log ≢ []
    → (timer (timer n at).0 at').1
      ≡ send [] (broadcast n.log) ∷ (if n.round == classic_deliv then [] else set_timer ∷ [])
unfolding timer set
timer_twice n at at' once heard =
    let quiet : (n.log == []) ≡ false = ground arith in
    rw (once, quiet) (rw quiet (rw (recipients-take_down n.neighbours) refl))

-- ===== src/Outbox/Peeking.antt =====
-- `Peek` against the list of the pending events.
use logcenter_sdk_go.Base.{
  ℕ, zero, suc, ◌-◌, ℤ, pos, negsuc, String, List, [], ◌∷◌, true, false, none, some, ◌&&◌,
  if◌then◌else◌, leb_ℤ, ltb_ℤ, to_nat, take, All, subst, inl, inr, ◌≡◌, refl, sym, ap, arith,
  Bool-cases, Option-cases, Option,
}
use logcenter_sdk_go.Types.{Event}
use logcenter_sdk_go.Errors.{Error}
use logcenter_sdk_go.Platform.{Platform}
use logcenter_sdk_go.Outbox.Defs.{DurableOutbox, lines_of, peek_lines, peek}
use logcenter_sdk_go.Outbox.Pending.{IsShort, decoded, pending, decoded-none, decoded-some}

take_nil {ℓ} : {A : Type ℓ} (n : ℕ) → take {A = A} n [] ≡ []
take_nil zero = refl
take_nil (suc n) = refl

module _ (platform : Platform) where
  -- How many events a `Peek` that has found n still takes.
  unfoldable pub budget : ℤ → ℕ → List Event → List Event
  budget max n events = if ltb_ℤ (pos 0) max then take (to_nat max - n) events else events

  pub budget-nil : (max : ℤ) (n : ℕ) → budget max n [] ≡ []
  unfolding budget
  budget-nil max n = elim (Bool-cases (ltb_ℤ (pos 0) max)) [
    | inl h ↦ rw h (take_nil (to_nat max - n))
    | inr h ↦ rw h
  ]

  budget-stop :
      (max : ℤ) (n : ℕ) (events : List Event)
      → (ltb_ℤ (pos 0) max && leb_ℤ max (pos n)) ≡ true
      → budget max n events ≡ []
  unfolding budget
  budget-stop (pos m) n events h =
      let p : m - n ≡ 0 = ground arith in
      let q : ltb_ℤ (pos 0) (pos m) ≡ true = ground arith in rw (q, p)
  budget-stop (negsuc m) n events h = ground arith

  pub budget-next :
      (max : ℤ) (n : ℕ) (event : Event) (events : List Event)
      → (ltb_ℤ (pos 0) max && leb_ℤ max (pos n)) ≡ false
      → budget max n (event ∷ events) ≡ event ∷ budget max (suc n) events
  unfolding budget
  budget-next (pos m) n event events h = elim (Bool-cases (ltb_ℤ (pos 0) (pos m))) [
    | inl q ↦ let p : m - n ≡ suc (m - suc n) = ground arith in rw (q, p)
    | inr q ↦ rw q
  ]
  budget-next (negsuc m) n event events h = ground arith

  peek_lines_lem :
      (max : ℤ) (n : ℕ) (lines : List String)
      → All IsShort lines
      → peek_lines platform max n lines ≡ some (budget max n (decoded platform lines))
  unfolding peek_lines
  peek_lines_lem max n [] short = ap some (sym (budget-nil max n))
  peek_lines_lem max n (line ∷ lines) (s, short) =
      elim (Bool-cases (ltb_ℤ (pos 0) max && leb_ℤ max (pos n))) [
        | inl h ↦ rw (budget-stop max n (decoded platform (line ∷ lines)) h, s, h, peek_lines) refl
        | inr h ↦ elim (Option-cases (platform.decode_event line)) [
          | inl d ↦
              rw (decoded-none platform line lines d, s, h, d, peek_lines)
                (peek_lines_lem max n lines short)
          | inr (e, d) ↦
              rw
                (
                  decoded-some platform line lines e d,
                  s,
                  h,
                  d,
                  peek_lines_lem max (suc n) lines short,
                  peek_lines,
                )
                (ap some (sym (budget-next max n e (decoded platform lines) h)))
        ]
      ]

  -- What a `Peek` at a negative `max` returns: nothing where there is no file, and else it panics.
  abbrev pub peeked_negative : Option (List String) → Option (List Event × Option Error)
  peeked_negative none = some ([], none)
  peeked_negative (some lines) = none

  -- Where the file can be opened and has no line that is too long for the scanner, `Peek` returns the
  -- first `max` pending events in their order, or all of them if `max` is 0. At a negative `max` it
  -- panics, unless the file does not exist.
  pub peek_lem :
      (outbox : DurableOutbox) (n : ℕ)
      → All IsShort (lines_of outbox.file)
      → (peek platform false (some outbox) (pos n)
          ≡ some (budget (pos n) 0 (pending platform (some outbox)), none))
        × (peek platform false (some outbox) (negsuc n) ≡ peeked_negative outbox.file)
  unfolding peek
  peek_lem outbox n short = elim (Option-cases outbox.file) [
    | inl h ↦ rw h (ap (λ events. some (events, none)) (sym (budget-nil (pos n) 0)), refl)
    | inr (lines, h) ↦
        let scan =
          peek_lines_lem (pos n) 0 lines (subst (λ file. All IsShort (lines_of file)) h short) in
        let nonnegative : ltb_ℤ (pos n) (pos 0) ≡ false = ground arith in
        let negative : ltb_ℤ (negsuc n) (pos 0) ≡ true = ground arith in
        rw (h, scan, nonnegative, negative) (refl, refl)
  ]

-- ===== src/Queue/Policy.antt =====
-- What the buffer keeps and what it gives up.
use logcenter_sdk_go.Base.{
  ℕ, ◌≤◌, ◌<◌, ◌≡◌, refl, String, List, [], ◌∷◌, ◌++◌, true, false, Option, none, some, arith,
  subst, get_elem?, length, All, Bool-cases, Option-cases, inl, inr, length-append, length-set, ◌⊎◌,
  ltb,
}
use mathlib.Core.List.{Perm, perm_middle, append-nil}
use mathlib.Core.List.Perm
use logcenter_sdk_go.Types.{Event, level_debug, level_info}
use logcenter_sdk_go.Queue.Defs.{
  EventQueue, QueuePushResult, is_log_at, index_of_droppable, is_droppable, push, push_full,
  replace_at, buffer_full,
}
use logcenter_sdk_go.Queue.Search.{
  index_of_droppable_from-some, index_of_droppable_from-none, set-perm,
}

abbrev pub IsBounded : EventQueue → Type 0
IsBounded queue = length queue.events ≤ queue.capacity

abbrev pub to_list : Option Event → List Event
to_list none = []
to_list (some e) = e ∷ []

-- The cases of a push: room, a refusal, or the exchange of a buffered log event of a low level.
pub data Pushed (queue : EventQueue) (event : Event) : EventQueue × QueuePushResult → Type 0 where
  room :
      length queue.events < queue.capacity
      → Pushed queue event (
        record queue { events = queue.events ++ event ∷ [] },
        record { queued = true; dropped = none; drop_reason = "" },
      )
  refused :
      queue.capacity ≤ length queue.events
      → (is_droppable event ≡ true) ⊎ All (λ e. is_droppable e ≡ false) queue.events
      → Pushed queue event (queue, buffer_full event)
  replaced :
      (i : ℕ) (old : Event)
      → queue.capacity ≤ length queue.events
      → get_elem? queue.events i ≡ some old
      → is_droppable event ≡ false
      → is_droppable old ≡ true
      → (is_log_at level_debug old ≡ true) ⊎ All (λ e. is_log_at level_debug e ≡ false) queue.events
      → Pushed queue event (replace_at queue i event)

not_droppable :
    (events : List Event)
    → All (λ e. is_log_at level_debug e ≡ false) events
    → All (λ e. is_log_at level_info e ≡ false) events
    → All (λ e. is_droppable e ≡ false) events
unfolding is_droppable
not_droppable [] h k = tt
not_droppable (x ∷ xs) (p, h) (q, k) = (ground arith, not_droppable xs h k)

found_at :
    (queue : EventQueue) (level : String) (i : ℕ)
    → index_of_droppable queue level ≡ some i
    → (old : Event) × (get_elem? queue.events i ≡ some old) × (is_log_at level old ≡ true)
unfolding index_of_droppable
found_at queue level i h =
    let (j, old, p, q, r) = index_of_droppable_from-some 0 level queue.events i h in
    let e : j ≡ i = omega arith in (old, subst (λ n. get_elem? queue.events n ≡ some old) e q, r)

push_full-Pushed :
    (queue : EventQueue) (event : Event)
    → queue.capacity ≤ length queue.events
    → is_droppable event ≡ false
    → Pushed queue event (push_full queue event)
unfolding push_full is_droppable
push_full-Pushed queue event full keep =
    elim (Option-cases (index_of_droppable queue level_debug)) [
      | inr (i, e) ↦
          let (old, at, hit) = found_at queue level_debug i e in
          rw (e, push_full) (replaced i old full at keep (ground arith) (inl hit))
      | inl e ↦
          let no_debug = index_of_droppable_from-none 0 level_debug queue.events e in
          elim (Option-cases (index_of_droppable queue level_info)) [
            | inr (i, e') ↦
                let (old, at, hit) = found_at queue level_info i e' in
                rw (e, push_full, e') (replaced i old full at keep (ground arith) (inr no_debug))
            | inl e' ↦
                rw (e, push_full, e')
                  (refused full (
                    inr (
                      not_droppable queue.events no_debug
                        (index_of_droppable_from-none 0 level_info queue.events e'))))
          ]
    ]

pub push-Pushed : (queue : EventQueue) (event : Event) → Pushed queue event (push queue event)
unfolding push
push-Pushed queue event = elim (Bool-cases (ltb (length queue.events) queue.capacity)) [
  | inl e ↦ rw (e, push) (room (ground arith))
  | inr e ↦ elim (Bool-cases (is_droppable event)) [
    | inl d ↦ rw (e, push, d) (refused (ground arith) (inl d))
    | inr d ↦ rw (e, push, d) (push_full-Pushed queue event (ground arith) d)
  ]
]

Pushed-IsBounded :
    {queue : EventQueue} {event : Event} {r : EventQueue × QueuePushResult}
    → Pushed queue event r
    → IsBounded queue
    → IsBounded r.0 × (r.0.capacity ≡ queue.capacity)
unfolding replace_at
Pushed-IsBounded {queue} {event} (room h) b =
    (omega (arith, length-append queue.events (event ∷ [])), refl)
Pushed-IsBounded (refused h d) b = (b, refl)
Pushed-IsBounded {queue} {event} (replaced i old h at keep drop d) b =
    (omega (arith, length-set queue.events i event), refl)

Pushed-perm :
    {queue : EventQueue} {event : Event} {r : EventQueue × QueuePushResult}
    → Pushed queue event r
    → Perm (event ∷ queue.events) (to_list r.1.dropped ++ r.0.events)
unfolding replace_at buffer_full
Pushed-perm {queue} {event} (room h) =
    Perm.trans (subst_perm event queue.events) (Perm.symm (perm_middle queue.events []))
  where
    subst_perm : (e : Event) (es : List Event) → Perm (e ∷ es) (e ∷ (es ++ []))
    subst_perm e es = rw (append-nil es) (Perm.refl (e ∷ es))
Pushed-perm (refused h d) = Perm.refl _
Pushed-perm {queue} {event} (replaced i old h at keep drop d) =
    rw at (set-perm queue.events i event at)

-- The buffer never outgrows its capacity, which a push does not change.
pub push-IsBounded :
    (queue : EventQueue) (event : Event)
    → IsBounded queue
    → IsBounded (push queue event).0 × ((push queue event).0.capacity ≡ queue.capacity)
push-IsBounded queue event b = Pushed-IsBounded (push-Pushed queue event) b

-- No event is lost silently or doubled: what was buffered and the new event are, as a multiset, what
-- is buffered afterwards and the event that the result reports as dropped, if it reports one.
pub push-perm :
    (queue : EventQueue) (event : Event)
    → Perm
        (event ∷ queue.events)
        (to_list (push queue event).1.dropped ++ (push queue event).0.events)
push-perm queue event = Pushed-perm (push-Pushed queue event)

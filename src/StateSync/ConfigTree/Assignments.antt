-- ===== src/StateSync/ConfigTree/Assignments.antt =====
-- The assignment events, in whatever order they come.
pub mod Tracking
use doxa.Prelude.{
  ℕ, zero, suc, ◌≤◌, ◌<◌, ◌≡◌, refl, sym, ap, subst, ◌∙◌, Bool, true, false, List, [], ◌∷◌, none,
  some, arith, length, ltb, ltb→lt, ◌==◌, if◌then◌else◌, Map, get, remove, insert, contains_key,
  member, is_some, dec_lt, Bool-cases, Option-cases, inl, inr, get-remove_self, get-remove_ne,
  get-insert_ne,
}
use doxa.Client.Keys.{nat_key, nat_sound}
use doxa.StateSync.State.{StateSyncState, SubpoolAssignedEvent}
use doxa.StateSync.ConfigTree.{
  register_subpool, take_buffered, drain_round, drain, process_assigned, process_all_assigned,
}
use doxa.StateSync.ConfigTree.Assignments.Tracking.{
  Tracks, Drained, drain-Tracks, Tracks-register, Tracks-buffer, Tracks-earlier, earlier,
}

either_order :
    (a b c : Bool)
    → (if a then true else (if b then true else c)) ≡ (if (if b then true else a) then true else c)
either_order true true c = refl
either_order true false c = refl
either_order false true c = refl
either_order false false c = refl

by_test :
    {S : Type 0} (P : S → Type 0) (b : Bool) (x y : S)
    → (b ≡ true → P x)
    → (b ≡ false → P y)
    → P (if b then x else y)
by_test P true x y f g = f refl
by_test P false x y f g = g refl

process_assigned-Tracks :
    (seen : List ℕ) (s : StateSyncState) (event : SubpoolAssignedEvent)
    → Tracks seen s × Drained s
    → Tracks (event.subpool_id ∷ seen) (process_assigned event s)
      × Drained (process_assigned event s)
unfolding process_assigned register_subpool
process_assigned-Tracks seen s event (t, d) =
    let id = event.subpool_id in
    let next = s.next_expected_subpool_id in
    by_test (λ s'. Tracks (id ∷ seen) s' × Drained s') (id == next) _ _
      (λ same.
        drain-Tracks (length s.pending_subpool_assignments) (id ∷ seen) (register_subpool id s)
          (omega arith) (Tracks-register seen s id same t))
      (λ other.
        by_test (λ s'. Tracks (id ∷ seen) s' × Drained s') (ltb next id) _ _
          (λ later. Tracks-buffer seen s id event (ltb→lt next id later) (t, d))
          (λ not_later. (Tracks-earlier seen s id (earlier id next other not_later) t, d)))

abbrev pub ids : List SubpoolAssignedEvent → List ℕ
ids [] = []
ids (event ∷ events) = event.subpool_id ∷ ids events

abbrev seen_after : List SubpoolAssignedEvent → List ℕ → List ℕ
seen_after [] seen = seen
seen_after (event ∷ events) seen = seen_after events (event.subpool_id ∷ seen)

member-seen_after :
    (events : List SubpoolAssignedEvent) (seen : List ℕ) (k : ℕ)
    → member k (seen_after events seen) ≡ (if member k (ids events) then true else member k seen)
member-seen_after [] seen k = refl
member-seen_after (event ∷ events) seen k =
    member-seen_after events (event.subpool_id ∷ seen) k
    ∙ either_order (member k (ids events)) (k == event.subpool_id) (member k seen)

process_all_assigned-Tracks :
    (events : List SubpoolAssignedEvent) (seen : List ℕ) (s : StateSyncState)
    → Tracks seen s × Drained s
    → Tracks (seen_after events seen) (process_all_assigned events s)
      × Drained (process_all_assigned events s)
unfolding process_all_assigned
process_all_assigned-Tracks [] seen s t = t
process_all_assigned-Tracks (event ∷ events) seen s t =
    process_all_assigned-Tracks events (event.subpool_id ∷ seen) (process_assigned event s)
      (process_assigned-Tracks seen s event t)

Tracks-start :
    (s : StateSyncState)
    → s.next_expected_subpool_id ≡ 1
    → s.pending_subpool_assignments ≡ []
    → Tracks [] s × Drained s
Tracks-start s e n =
    let empty = λ (k : ℕ). ap (λ m. get m k) n in
    (
      record {
        positive = omega (arith, e);
        below = λ k p q. absurd (omega (arith, e));
        buffered = λ k p m. cc;
        from_events = λ k c. let gone = ap is_some (empty k) in cc;
      },
      empty s.next_expected_subpool_id,
    )

or_false : (b : Bool) → (if b then true else false) ≡ b
or_false true = refl
or_false false = refl

-- From a state that expects subpool 1 and has nothing buffered, whatever assignment events come
-- and in whatever order, the id that is expected afterwards is the least positive id for which
-- there was no event.
pub process_all_assigned-next :
    (events : List SubpoolAssignedEvent) (s : StateSyncState)
    → s.next_expected_subpool_id ≡ 1
    → s.pending_subpool_assignments ≡ []
    → (0 < (process_all_assigned events s).next_expected_subpool_id)
      × ((id : ℕ)
          → 0 < id
          → id < (process_all_assigned events s).next_expected_subpool_id
          → member id (ids events) ≡ true)
      × (member (process_all_assigned events s).next_expected_subpool_id (ids events) ≡ false)
process_all_assigned-next events s e n =
    let s' = process_all_assigned events s in
    let next = s'.next_expected_subpool_id in
    let (t, d) = process_all_assigned-Tracks events [] s (Tracks-start s e n) in
    let seen_ids = λ (k : ℕ). member-seen_after events [] k ∙ or_false (member k (ids events)) in
    (
      t.positive,
      λ id p q. sym (seen_ids id) ∙ t.below id p q,
      elim (Bool-cases (member next (ids events))) [
        | inl m ↦
            let there = t.buffered next (omega arith) (seen_ids next ∙ m) in
            let gone = ap is_some d in cc
        | inr other ↦ other
      ],
    )

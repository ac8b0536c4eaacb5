-- ===== src/Application/Ledger.antt =====
-- The invariant of `MemoryRepository`: an event, its scope and its audit entries are kept together, the
-- event is well formed, and it has as many audit entries as its version says.
use ros_road_operating_syste.Prelude.{
  ℕ, ◌+◌, ◌≤◌, true, Option, none, some, List, [], ◌∷◌, ◌++◌, if◌then◌else◌, ◌≡◌, inl, inr, refl,
  arith, length, length-append, Bool-cases, Option-cases, subst, sym, ◌∙◌, ap,
}
use mathlib.Core.Option.{get_or}
use ros_road_operating_syste.Prelude.Text.{Text, text_eq, text_eq_iff}
use ros_road_operating_syste.Prelude.Dict.{lookup, insert, lookup-insert}
use ros_road_operating_syste.Prelude.Result.{Result, ok, err}
use ros_road_operating_syste.RoadEvent.{
  RoadEvent, max_safe_integer, closure_authorization_of, new_road_event,
}
use ros_road_operating_syste.RoadEvent.Validity.{IsValid, copy-Optional_fixed}
use ros_road_operating_syste.RoadEvent.Operations.{new_road_event-props_of}
use ros_road_operating_syste.RoadEvent.Access.{RoadEventAccessScope, RoadEventWriteContext}
use ros_road_operating_syste.Application.Ports.{AuditTimelineEntry, EventSnapshot}
use ros_road_operating_syste.Application.Memory.{
  MemoryRepository, clone_event, create_event, update_event, find_by_id, append_audit, visible,
  same_scope, same_optional, event_snapshot,
}

-- What is kept under one id.
abbrev pub IsEntry :
    ℕ
    → Text
    → Option RoadEvent
    → Option RoadEventAccessScope
    → Option (List AuditTimelineEntry)
    → Type 0
IsEntry now id none none none = Unit
IsEntry now id (some e) (some scope) (some entries) =
    IsValid now e
    × (e.id ≡ id)
    × (scope.reporter_actor_id ≡ e.reporter_actor_id)
    × (length entries ≡ e.version)
    × (e.version ≤ max_safe_integer)
IsEntry now id _ _ _ = ⊥

pub record IsConsistent (now : ℕ) (r : MemoryRepository) : Type 0 where
  pub entry :
      (id : Text) → IsEntry now id (lookup id r.events) (lookup id r.scopes) (lookup id r.audit)

pub clone_event_lem :
    (now : ℕ) (e : RoadEvent)
    → IsValid now e
    → e.version ≤ max_safe_integer
    → clone_event now e ≡ ok e
unfolding clone_event closure_authorization_of
clone_event_lem now e v safe = rw (
  copy-Optional_fixed now e.closure_authorization v.authorization,
  new_road_event-props_of now now e v (omega arith) safe,
)

same_optional_iff : (a b : Option Text) → same_optional a b ≡ true → a ≡ b
unfolding same_optional
same_optional_iff none none h = refl
same_optional_iff none (some b) h = cc
same_optional_iff (some a) none h = cc
same_optional_iff (some a) (some b) h = ap some ((text_eq_iff a b).0 h)

IsEntry-eq :
    (now : ℕ) (id j : Text) (e : Option RoadEvent) (s : Option RoadEventAccessScope)
    (a : Option (List AuditTimelineEntry))
    → id ≡ j
    → IsEntry now id e s a
    → IsEntry now j e s a
IsEntry-eq now id j e s a p h = subst (λ t. IsEntry now t e s a) p h

-- Writing all three parts under one id.
insert-IsConsistent :
    (now : ℕ) (r r' : MemoryRepository) (id : Text) (e : RoadEvent) (s : RoadEventAccessScope)
    (a : List AuditTimelineEntry)
    → IsConsistent now r
    → IsEntry now id (some e) (some s) (some a)
    → ((j : Text) → lookup j r'.events ≡ (if text_eq id j then some e else lookup j r.events))
    → ((j : Text) → lookup j r'.scopes ≡ (if text_eq id j then some s else lookup j r.scopes))
    → ((j : Text) → lookup j r'.audit ≡ (if text_eq id j then some a else lookup j r.audit))
    → IsConsistent now r'
insert-IsConsistent now r r' id e s a c h p q t = record {
  entry = λ j. elim (Bool-cases (text_eq id j)) [
    | inl same ↦
        rw (p j, q j, t j, same)
          (IsEntry-eq now id j (some e) (some s) (some a) ((text_eq_iff id j).0 same) h)
    | inr other ↦ rw (p j, q j, t j, other) (c.entry j)
  ];
}

abbrev scope_of : RoadEventWriteContext → RoadEvent → RoadEventAccessScope
scope_of context e = record {
  tenant_id = context.scope.tenant_id;
  purpose = context.scope.purpose;
  reporter_actor_id = e.reporter_actor_id;
}

-- What a write leaves, once the clone is known to be the event.
abbrev written :
    ℕ
    → RoadEvent
    → RoadEventWriteContext
    → Option EventSnapshot
    → MemoryRepository
    → MemoryRepository
written now e context before r = append_audit now e.id context before (some (event_snapshot e)) r

create_event-eq :
    (now : ℕ) (e : RoadEvent) (context : RoadEventWriteContext) (r r' : MemoryRepository)
    → IsValid now e
    → e.version ≤ max_safe_integer
    → create_event now e context r ≡ ok r'
    → (lookup e.id r.events ≡ none)
      × (r'
          ≡ written now e context none (record r {
            events = insert e.id e r.events;
            scopes = insert e.id (scope_of context e) r.scopes;
          }))
unfolding create_event
create_event-eq now e context r r' v safe h = ground (arith, clone_event_lem now e v safe)

none_of_IsConsistent :
    (now : ℕ) (r : MemoryRepository) (id : Text)
    → IsConsistent now r
    → lookup id r.events ≡ none
    → lookup id r.audit ≡ none
none_of_IsConsistent now r id c h = ground (arith, c.entry id)

-- A new event of version 1 is kept with its scope and one audit entry.
pub create_event-IsConsistent :
    (now : ℕ) (e : RoadEvent) (context : RoadEventWriteContext) (r r' : MemoryRepository)
    → IsConsistent now r
    → IsValid now e
    → e.version ≡ 1
    → create_event now e context r ≡ ok r'
    → IsConsistent now r'
unfolding append_audit
create_event-IsConsistent now e context r r' c v one h =
    let (new, same) = create_event-eq now e context r r' v (omega arith) h in
    subst (IsConsistent now) (sym same) (
      insert-IsConsistent now r _ e.id e (scope_of context e)
        (get_or (lookup e.id r.audit) [] ++ _ ∷ []) c
        (v, refl, refl, rw (none_of_IsConsistent now r e.id c new) (sym one), omega arith)
        (λ j. lookup-insert e.id j e r.events)
        (λ j. lookup-insert e.id j (scope_of context e) r.scopes)
        (λ j. lookup-insert e.id j _ r.audit))

pub update_event-eq :
    (now : ℕ) (e : RoadEvent) (version : ℕ) (context : RoadEventWriteContext)
    (r r' : MemoryRepository)
    → IsValid now e
    → e.version ≤ max_safe_integer
    → update_event now e version context r ≡ ok r'
    → (current : RoadEvent) × (lookup e.id r.events ≡ some current)
      × (current.version ≡ version)
      × (r'
          ≡ written now e context
              (some (event_snapshot current))
              (record r { events = insert e.id e r.events }))
unfolding update_event visible
update_event-eq now e version context r r' v safe h = elim (Option-cases (lookup e.id r.events)) [
  | inl gone ↦ absurd (ground arith)
  | inr (current, found) ↦
      (current, found, ground arith, ground (arith, clone_event_lem now e v safe))
]

-- What a consistent repository keeps beside an event that it has.
beside_event :
    (now : ℕ) (r : MemoryRepository) (id : Text) (e : RoadEvent)
    → IsConsistent now r
    → lookup id r.events ≡ some e
    → (s : RoadEventAccessScope) × (a : List AuditTimelineEntry) × (lookup id r.scopes ≡ some s)
      × (lookup id r.audit ≡ some a)
      × IsEntry now id (some e) (some s) (some a)
beside_event now r id e c found =
    at (lookup id r.scopes) (lookup id r.audit) refl refl (rw found at (c.entry id))
  where
    at :
        (s : Option RoadEventAccessScope) (a : Option (List AuditTimelineEntry))
        → lookup id r.scopes ≡ s
        → lookup id r.audit ≡ a
        → IsEntry now id (some e) s a
        → (s : RoadEventAccessScope) × (a : List AuditTimelineEntry) × (lookup id r.scopes ≡ some s)
          × (lookup id r.audit ≡ some a)
          × IsEntry now id (some e) (some s) (some a)
    at (some s) (some a) p q h = (s, a, p, q, h)
    at (some s) none p q h = absurd h
    at none a p q h = absurd h

same_as_kept :
    {A : Type 0} (id j : Text) (m : List (Text × A)) (s : A)
    → lookup id m ≡ some s
    → lookup j m ≡ (if text_eq id j then some s else lookup j m)
same_as_kept id j m s found = elim (Bool-cases (text_eq id j)) [
  | inl same ↦ rw same (ap (λ t. lookup t m) (sym ((text_eq_iff id j).0 same)) ∙ found)
  | inr other ↦ rw other
]

-- An update by the next version of the same event keeps the repository consistent.
pub update_event-IsConsistent :
    (now : ℕ) (e current : RoadEvent) (version : ℕ) (context : RoadEventWriteContext)
    (r r' : MemoryRepository)
    → IsConsistent now r
    → IsValid now e
    → lookup e.id r.events ≡ some current
    → e.reporter_actor_id ≡ current.reporter_actor_id
    → e.version ≡ current.version + 1
    → e.version ≤ max_safe_integer
    → update_event now e version context r ≡ ok r'
    → IsConsistent now r'
unfolding append_audit
update_event-IsConsistent now e current version context r r' c v found owner next safe h =
    let (before, _, _, same) = update_event-eq now e version context r r' v safe h in
    let (s, a, p, q, (_, _, kept, count, _)) = beside_event now r e.id current c found in
    subst (IsConsistent now) (sym same) (
      insert-IsConsistent now r _ e.id e s (get_or (lookup e.id r.audit) [] ++ _ ∷ []) c
        (v, refl, kept ∙ sym owner, rw q (omega (arith, length-append {0} a _)), safe)
        (λ j. lookup-insert e.id j e r.events) (λ j. same_as_kept e.id j r.scopes s p)
        (λ j. lookup-insert e.id j _ r.audit))

-- A version past the safe integers cannot be written.
clone_event-safe :
    (now : ℕ) (e s : RoadEvent) → clone_event now e ≡ ok s → e.version ≤ max_safe_integer
unfolding clone_event new_road_event
clone_event-safe now e s h = ground arith

pub update_event-safe :
    (now : ℕ) (e : RoadEvent) (version : ℕ) (context : RoadEventWriteContext)
    (r r' : MemoryRepository)
    → update_event now e version context r ≡ ok r'
    → e.version ≤ max_safe_integer
unfolding update_event visible
update_event-safe now e version context r r' h = cloned (clone_event now e) refl
  where
    cloned : (c : Result RoadEvent) → clone_event now e ≡ c → e.version ≤ max_safe_integer
    cloned (ok s) p = clone_event-safe now e s p
    cloned (err x) p = absurd (ground arith)

-- What `find_by_id` returns is the event that is kept, under a scope that admits the caller.
pub find_by_id-eq :
    (now : ℕ) (id : Text) (scope : RoadEventAccessScope) (r : MemoryRepository) (e : RoadEvent)
    → IsConsistent now r
    → find_by_id now id scope r ≡ ok (some e)
    → (s : RoadEventAccessScope) × (lookup id r.events ≡ some e)
      × (lookup id r.scopes ≡ some s)
      × (same_scope s scope ≡ true)
      × IsValid now e
      × (e.id ≡ id)
      × (s.reporter_actor_id ≡ e.reporter_actor_id)
unfolding find_by_id visible
find_by_id-eq now id scope r e c h = elim (Option-cases (lookup id r.events)) [
  | inl gone ↦ absurd (ground arith)
  | inr (kept, found) ↦
      let (s, a, p, q, (v, i, o, _, safe)) = beside_event now r id kept c found in
      let same : kept ≡ e = ground (arith, clone_event_lem now kept v safe) in
      (
        s,
        ground arith,
        p,
        ground arith,
        subst (IsValid now) same v,
        subst (λ x. x.id ≡ id) same i,
        subst (λ x. s.reporter_actor_id ≡ x.reporter_actor_id) same o,
      )
]

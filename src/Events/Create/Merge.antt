-- ===== src/Events/Create/Merge.antt =====
-- Which status `CreateEvent` gives to a service: the maps that it builds, key by key.
use incident_garden.Prelude.{
  ◌≡◌, refl, sym, ap, ◌∙◌, inl, inr, Bool, true, false, ◌||◌, Option, none, some, List, [], ◌∷◌,
  arith, ◌==◌, if◌then◌else◌, contains, distinct, Bool-cases, ==_iff,
}
use incident_garden.Domain.{Uuid, ServiceStatus, AffectedService, AffectedGroup}
use incident_garden.Store.{Db, World, rows, fold_each}
use incident_garden.Store.Tables.{Ends, Ends-bind, Ends-pure, Ends-weaken, Ends-on_pool}
use incident_garden.Catalog.Repository.{select_group_services, group_members}
use incident_garden.Events.Create.{
  Statuses, has_key, put, add_members, add_group_members, collect_groups, override,
}

abbrev pub lookup : Uuid → Statuses → Option ServiceStatus
lookup s [] = none
lookup s (p ∷ m) = if p.0 == s then some p.1 else lookup s m

abbrev pub or_else : Option ServiceStatus → Option ServiceStatus → Option ServiceStatus
or_else none b = b
or_else (some a) b = some a

abbrev pub keys : Statuses → List Uuid
keys [] = []
keys (p ∷ m) = p.0 ∷ keys m

-- The last status that a list of services gives to one of them.
abbrev pub last_given : Uuid → List AffectedService → Option ServiceStatus
last_given s [] = none
last_given s (a ∷ more) =
    or_else (last_given s more) (if a.service_id == s then some a.status else none)

-- The status of the first group that has the service among its members.
abbrev pub first_group : (Uuid → List Uuid) → Uuid → List AffectedGroup → Option ServiceStatus
first_group members s [] = none
first_group members s (g ∷ gs) =
    if contains s (members g.group_id) then some g.status else first_group members s gs

-- What the code means to give: an explicit status before that of a group.
abbrev pub intended :
    (Uuid → List Uuid) → List AffectedService → List AffectedGroup → Uuid → Option ServiceStatus
intended members services groups s = or_else (last_given s services) (first_group members s groups)

lookup-put :
    (k s : Uuid) (v : ServiceStatus) (m : Statuses)
    → lookup s (put k v m) ≡ (if k == s then some v else lookup s m)
unfolding put
lookup-put k s v [] = refl
lookup-put k s v (p ∷ m) =
    ground (arith, lookup-put k s v m, ==_iff p.0 k, ==_iff p.0 s, ==_iff k s)

absent-lookup : (k : Uuid) (m : Statuses) → has_key k m ≡ false → lookup k m ≡ none
absent-lookup k [] h = refl
absent-lookup k (p ∷ m) h = ground (arith, absent-lookup k m)

present-lookup :
    (k : Uuid) (m : Statuses) (b : Option ServiceStatus)
    → has_key k m ≡ true
    → or_else (lookup k m) b ≡ lookup k m
present-lookup k [] b h = cc
present-lookup k (p ∷ m) b h = ground (arith, present-lookup k m b)

or_else-none : (a : Option ServiceStatus) → or_else a none ≡ a
or_else-none none = refl
or_else-none (some a) = refl

or_else_assoc : (a b c : Option ServiceStatus) → or_else (or_else a b) c ≡ or_else a (or_else b c)
or_else_assoc none b c = refl
or_else_assoc (some a) b c = refl

if-or_else :
    (b : Bool) (v : ServiceStatus) (o : Option ServiceStatus)
    → (if b then some v else o) ≡ or_else (if b then some v else none) o
if-or_else true v o = refl
if-or_else false v o = refl

-- One member: a status that is there stays.
lookup-keep :
    (k s : Uuid) (v : ServiceStatus) (m : Statuses)
    → lookup s (if has_key k m then m else put k v m)
      ≡ or_else (lookup s m) (if k == s then some v else none)
lookup-keep k s v m = elim (Bool-cases (has_key k m)) [
  | inl there ↦ elim (Bool-cases (k == s)) [
    | inl hit ↦ ground (arith, there, hit, ==_iff k s, present-lookup k m (some v) there)
    | inr miss ↦ ground (arith, there, miss, or_else-none (lookup s m))
  ]
  | inr missing ↦ elim (Bool-cases (k == s)) [
    | inl hit ↦
        ground (arith, missing, hit, ==_iff k s, lookup-put k s v m, absent-lookup k m missing)
    | inr miss ↦ ground (arith, missing, miss, lookup-put k s v m, or_else-none (lookup s m))
  ]
]

lookup-add_members :
    (ss : List Uuid) (s : Uuid) (v : ServiceStatus) (m : Statuses)
    → lookup s (add_members ss v m) ≡ or_else (lookup s m) (if contains s ss then some v else none)
unfolding add_members
lookup-add_members [] s v m = sym (or_else-none (lookup s m))
lookup-add_members (k ∷ ks) s v m =
    lookup-add_members ks s v (if has_key k m then m else put k v m)
    ∙ ap (λ o. or_else o (if contains s ks then some v else none)) (lookup-keep k s v m)
    ∙ or_else_assoc (lookup s m) _ _
    ∙ ap (or_else (lookup s m)) (ground (arith, ==_iff k s, ==_iff s k, Bool-cases (contains s ks)))

lookup-override :
    (s : Uuid) (services : List AffectedService) (m : Statuses)
    → lookup s (override services m) ≡ or_else (last_given s services) (lookup s m)
unfolding override
lookup-override s [] m = refl
lookup-override s (a ∷ more) m =
    lookup-override s more (put a.service_id a.status m)
    ∙ ap (or_else (last_given s more)) (lookup-put a.service_id s a.status m)
    ∙ ap (or_else (last_given s more)) (if-or_else (a.service_id == s) a.status (lookup s m))
    ∙ sym (or_else_assoc (last_given s more) _ (lookup s m))

contains-put :
    (i k : Uuid) (v : ServiceStatus) (m : Statuses)
    → contains i (keys (put k v m)) ≡ (i == k || contains i (keys m))
unfolding put
contains-put i k v [] = refl
contains-put i k v (p ∷ m) =
    ground (arith, contains-put i k v m, ==_iff p.0 k, ==_iff i k, ==_iff i p.0)

distinct-put :
    (k : Uuid) (v : ServiceStatus) (m : Statuses)
    → distinct (keys m) ≡ true
    → distinct (keys (put k v m)) ≡ true
unfolding put
distinct-put k v [] d = refl
distinct-put k v (p ∷ m) d =
    ground (arith, distinct-put k v m, contains-put p.0 k v m, ==_iff p.0 k, Bool-cases (p.0 == k))

distinct-add_members :
    (ss : List Uuid) (v : ServiceStatus) (m : Statuses)
    → distinct (keys m) ≡ true
    → distinct (keys (add_members ss v m)) ≡ true
unfolding add_members
distinct-add_members [] v m d = d
distinct-add_members (k ∷ ks) v m d =
    distinct-add_members ks v (if has_key k m then m else put k v m)
      (ground (arith, d, distinct-put k v m, Bool-cases (has_key k m)))

pub distinct-override :
    (services : List AffectedService) (m : Statuses)
    → distinct (keys m) ≡ true
    → distinct (keys (override services m)) ≡ true
unfolding override
distinct-override [] m d = d
distinct-override (a ∷ more) m d =
    distinct-override more (put a.service_id a.status m) (distinct-put a.service_id a.status m d)

-- What the groups have given so far.
pub record Collects (groups : List AffectedGroup) (d : Db) (m m' : Statuses) : Type 0 where
  pub gives :
      (s : Uuid) → lookup s m' ≡ or_else (lookup s m) (first_group (group_members d) s groups)
  pub once : distinct (keys m') ≡ true

rows-members :
    (g : Uuid) (d d' : Db) (ss : List Uuid)
    → select_group_services g d ≡ rows ss d'
    → (ss ≡ group_members d g) × (d' ≡ d)
unfolding select_group_services
rows-members g d d' ss h = (ground arith, ground arith)

add_group_members-Collects :
    (m : Statuses) (g : AffectedGroup) (w : World)
    → distinct (keys m) ≡ true
    → Ends (λ m' u. Collects (g ∷ []) w.db m m' × (u.db ≡ w.db)) (add_group_members m g) w
unfolding add_group_members
add_group_members-Collects m g w d =
    Ends-bind _ _ w (Ends-on_pool (select_group_services g.group_id) w) λ ss u s.
      let read = rows-members g.group_id w.db u.db ss s in
      Ends-pure _ u (
        record {
          gives = λ k.
              lookup-add_members ss k g.status m
              ∙ ap (λ xs. or_else (lookup k m) (if contains k xs then some g.status else none))
                  read.0;
          once = distinct-add_members ss g.status m d;
        },
        read.1,
      )

first_group-cons :
    (members : Uuid → List Uuid) (s : Uuid) (g : AffectedGroup) (gs : List AffectedGroup)
    → or_else (first_group members s (g ∷ [])) (first_group members s gs)
      ≡ first_group members s (g ∷ gs)
first_group-cons members s g gs = elim (Bool-cases (contains s (members g.group_id))) [
  | inl hit ↦ rw hit refl
  | inr miss ↦ rw miss refl
]

collect-Collects :
    (groups : List AffectedGroup) (m : Statuses) (w : World)
    → distinct (keys m) ≡ true
    → Ends
        (λ m' u. Collects groups w.db m m' × (u.db ≡ w.db))
        (fold_each add_group_members groups m)
        w
unfolding fold_each
collect-Collects [] m w d =
    Ends-pure m w (record { gives = λ s. sym (or_else-none (lookup s m)); once = d }, refl)
collect-Collects (g ∷ gs) m w d = Ends-bind _ _ w (add_group_members-Collects m g w d) λ m₁ u₁ s₁.
    Ends-weaken (collect-Collects gs m₁ u₁ s₁.0.once) λ m₂ u₂ s₂. (
      record {
        gives = λ s.
            s₂.0.gives s
            ∙ ap (or_else (lookup s m₁)) (ap (λ (d : Db). first_group (group_members d) s gs) s₁.1)
            ∙ ap (λ o. or_else o (first_group (group_members w.db) s gs)) (s₁.0.gives s)
            ∙ or_else_assoc (lookup s m) _ _
            ∙ ap (or_else (lookup s m)) (first_group-cons (group_members w.db) s g gs);
        once = s₂.0.once;
      },
      s₂.1 ∙ s₁.1,
    )

-- The map that the creation runs over has each service once, with the status intended for it.
pub statuses-Intended :
    (services : List AffectedService) (groups : List AffectedGroup) (w : World)
    → Ends
        (λ m u.
          ((s : Uuid)
            → lookup s (override services m) ≡ intended (group_members w.db) services groups s)
          × (distinct (keys (override services m)) ≡ true))
        (collect_groups groups)
        w
unfolding collect_groups
statuses-Intended services groups w = Ends-weaken (collect-Collects groups [] w refl) λ m u s. (
  λ k. lookup-override k services m ∙ ap (or_else (last_given k services)) (s.0.gives k),
  distinct-override services m s.0.once,
)

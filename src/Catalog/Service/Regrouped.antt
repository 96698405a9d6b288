-- ===== src/Catalog/Service/Regrouped.antt =====
-- What `SetServiceGroupsTx` writes.
use incident_garden.Prelude.{
  ℕ, ◌≡◌, refl, ap, ◌∙◌, Bool, true, false, ◌&&◌, ◌||◌, not, List, [], ◌∷◌, arith, ◌==◌,
  if◌then◌else◌, any, keep, contains, Bool-cases, ==_iff,
}
use incident_garden.Domain.{Uuid}
use incident_garden.Store.{Db, World, rows, for_each, in_tx}
use incident_garden.Store.Tables.{Ends, Ends-bind, Ends-pure, Ends-weaken, Ends-in_tx}
use incident_garden.Catalog.Repository.Writes.{
  is_member, delete_memberships, insert_membership, set_service_groups_tx,
}

-- The groups of a service are the given ones, and every other membership is as it was.
abbrev pub Regroups : Uuid → List Uuid → Db → Db → Type 0
Regroups s gids d d' =
    (t g : Uuid)
    → any (is_member t g) d'.service_group_members
      ≡ (if t == s then contains g gids else any (is_member t g) d.service_group_members)

-- Members added to those that were there.
record Joins (s : Uuid) (gids : List Uuid) (d d' : Db) : Type 0 where
  others : d' ≡ record d { service_group_members = d'.service_group_members }
  members :
      (t g : Uuid)
      → any (is_member t g) d'.service_group_members
        ≡ (t == s && contains g gids || any (is_member t g) d.service_group_members)

insert_membership-eq :
    (s g : Uuid) (d d' : Db) (t : Unit {0})
    → insert_membership s g d ≡ rows t d'
    → d' ≡ record d { service_group_members = (s, g) ∷ d.service_group_members }
unfolding insert_membership
insert_membership-eq s g d d' t h = ground (arith, h)

joined_or :
    (t s g i : ℕ) (b c : Bool)
    → ((t == s && b) || ((s == t && i == g) || c)) ≡ (t == s && (g == i || b) || c)
joined_or t s g i b c =
    ground (arith, Bool-cases b, Bool-cases c, ==_iff t s, ==_iff s t, ==_iff i g, ==_iff g i)

Joins-cons :
    (s i : Uuid) (is : List Uuid) (d d' d'' : Db)
    → d' ≡ record d { service_group_members = (s, i) ∷ d.service_group_members }
    → Joins s is d' d''
    → Joins s (i ∷ is) d d''
Joins-cons s i is d d' d'' h j = record {
  others =
      j.others ∙ ap (λ (x : Db). record x { service_group_members = d''.service_group_members }) h;
  members = λ t g.
      j.members t g
      ∙ ap (λ (x : Db). t == s && contains g is || any (is_member t g) x.service_group_members) h
      ∙ joined_or t s g i (contains g is) (any (is_member t g) d.service_group_members);
}

join_all :
    (s : Uuid) (gids : List Uuid) (w : World)
    → Ends (λ _ u. Joins s gids w.tx u.tx) (for_each (λ g. in_tx (insert_membership s g)) gids) w
unfolding for_each
join_all s [] w =
    Ends-pure tt w (record { others = refl; members = λ t g. ground (arith, Bool-cases (t == s)) })
join_all s (i ∷ is) w = Ends-bind _ _ w (Ends-in_tx (insert_membership s i) w) λ t u one.
    Ends-weaken (join_all s is u)
      λ t' v rest. Joins-cons s i is w.tx u.tx v.tx (insert_membership-eq s i w.tx u.tx t one) rest

without_service :
    (s t g : Uuid) (ms : List (Uuid × Uuid))
    → any (is_member t g) (keep (λ m. not (m.0 == s)) ms)
      ≡ (if t == s then false else any (is_member t g) ms)
without_service s t g [] = ground (arith, Bool-cases (t == s))
without_service s t g (m ∷ ms) =
    ground (
      arith,
      without_service s t g ms,
      ==_iff m.0 s,
      ==_iff m.0 t,
      ==_iff t s,
      Bool-cases (m.1 == g),
    )

delete_memberships-eq :
    (s : Uuid) (d d' : Db) (t : Unit {0})
    → delete_memberships s d ≡ rows t d'
    → d' ≡ record d { service_group_members = keep (λ m. not (m.0 == s)) d.service_group_members }
unfolding delete_memberships
delete_memberships-eq s d d' t h = ground arith

-- What the statements on the memberships leave.
pub record Replaces (s : Uuid) (gids : List Uuid) (d d' : Db) : Type 0 where
  pub others : d' ≡ record d { service_group_members = d'.service_group_members }
  pub groups : Regroups s gids d d'

or_else : (b c : Bool) (x : Bool) → (b && c || (if b then false else x)) ≡ (if b then c else x)
or_else true c x = ground (arith, Bool-cases c)
or_else false c x = refl

pub replace_all :
    (s : Uuid) (gids : List Uuid) (w : World)
    → Ends (λ _ u. Replaces s gids w.tx u.tx) (set_service_groups_tx s gids) w
unfolding set_service_groups_tx
replace_all s gids w = Ends-bind _ _ w (Ends-in_tx (delete_memberships s) w) λ t u cleared.
    Ends-weaken (join_all s gids u) λ t' v j.
      let e = delete_memberships-eq s w.tx u.tx t cleared in
      record {
        others =
            j.others
            ∙ ap (λ (x : Db). record x { service_group_members = v.tx.service_group_members }) e;
        groups = λ t g.
            j.members t g
            ∙ ap
                (λ (x : Db).
                  t == s && contains g gids || any (is_member t g) x.service_group_members)
                e
            ∙ ap (λ b. t == s && contains g gids || b)
                (without_service s t g w.tx.service_group_members)
            ∙ or_else (t == s) (contains g gids) _;
      }

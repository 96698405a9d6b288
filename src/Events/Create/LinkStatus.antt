-- ===== src/Events/Create/LinkStatus.antt =====
-- What the upsert of a link does to the links, service by service.
use incident_garden.Prelude.{
  ◌≡◌, ◌∙◌, inl, inr, false, ◌&&◌, Option, none, some, List, [], ◌∷◌, ◌++◌, arith, ◌==◌,
  if◌then◌else◌, any, find_first, update_where, Bool-cases, ==_iff,
}
use incident_garden.Domain.{Uuid, Time, EventService, ServiceStatus}
use incident_garden.Events.Repository.{is_link, upsert_link}

-- The status that a link gives to a service, where there is such a link.
unfoldable pub link_status : Uuid → Uuid → List EventService → Option ServiceStatus
link_status e s rs = elim (find_first (is_link e s) rs) [ none ↦ none | some r ↦ some r.status ]

link_status-update :
    (e s a b : Uuid) (st : ServiceStatus) (now : Time) (rs : List EventService)
    → link_status e s
        (update_where (is_link a b) (λ r. record r { status = st; updated_at = now }) rs)
      ≡ (if (a == e && b == s) && any (is_link a b) rs then some st else link_status e s rs)
unfolding link_status
link_status-update e s a b st now [] = ground arith
link_status-update e s a b st now (r ∷ rs) = elim (Bool-cases (is_link a b r)) [
  | inl hit ↦ rw hit (
      ground (
        arith,
        hit,
        link_status-update e s a b st now rs,
        ==_iff r.event_id a,
        ==_iff r.service_id b,
        ==_iff r.event_id e,
        ==_iff r.service_id s,
        ==_iff a e,
        ==_iff b s,
        Bool-cases (r.event_id == a),
        Bool-cases (r.service_id == b),
      ))
  | inr miss ↦ rw miss (
      ground (
        arith,
        miss,
        link_status-update e s a b st now rs,
        ==_iff r.event_id a,
        ==_iff r.service_id b,
        ==_iff r.event_id e,
        ==_iff r.service_id s,
        ==_iff a e,
        ==_iff b s,
      ))
]

link_status-append :
    (e s : Uuid) (row : EventService) (rs : List EventService)
    → any (is_link row.event_id row.service_id) rs ≡ false
    → link_status e s (rs ++ row ∷ [])
      ≡ (if row.event_id == e && row.service_id == s then some row.status else link_status e s rs)
unfolding link_status
link_status-append e s row [] h = ground arith
link_status-append e s row (r ∷ rs) h = ground (
  arith,
  link_status-append e s row rs,
  ==_iff r.event_id e,
  ==_iff r.service_id s,
  ==_iff row.event_id e,
  ==_iff row.service_id s,
  ==_iff r.event_id row.event_id,
  ==_iff r.service_id row.service_id,
)

pub link_status-upsert :
    (e s : Uuid) (row : EventService) (rs : List EventService)
    → link_status e s (upsert_link row rs)
      ≡ (if row.event_id == e && row.service_id == s then some row.status else link_status e s rs)
unfolding upsert_link
link_status-upsert e s row rs = elim (Bool-cases (any (is_link row.event_id row.service_id) rs)) [
  | inl there ↦ rw there (
      link_status-update e s row.event_id row.service_id row.status row.updated_at rs
      ∙ ground (arith, there))
  | inr missing ↦ rw missing (link_status-append e s row rs missing)
]

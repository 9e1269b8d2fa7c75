-- ===== src/Presence/Tracking.antt =====
-- What the stream of services/presence/internal/handler/handler.go stores, and what is the last
-- location of a driver.
use parkirpintar.Common.{
  false, ℕ, ◌≡◌, refl, ◌+◌, ◌≤◌, List, [], ◌∷◌, map, Option, none, some, inl, inr, String, ◌==◌,
  arith, eq_iff, ltb, if◌then◌else◌, Bool-cases,
}
use parkirpintar.Common.Time.{Time}
use parkirpintar.Table.{where_}
use parkirpintar.World.{World, ok, now, call}
use parkirpintar.Presence.Domain.{LocationUpdate}
use parkirpintar.Presence.Repository.{save_location, latest, get_last_location}
use parkirpintar.Presence.Handler.{
  StreamRequest, Frame, receives, Ack, update_of, acknowledge, stream_location,
}

-- No location of the driver in the list was recorded after `t`.
abbrev pub NoneAfter : String → Time → List LocationUpdate → Type 0
NoneAfter driver t [] = Unit {0}
NoneAfter driver t (u ∷ us) = (u.driver_id ≡ driver → u.recorded_at ≤ t) × NoneAfter driver t us

NoneAfter-later :
    (driver : String) (t v : Time) (us : List LocationUpdate)
    → t ≤ v
    → NoneAfter driver t us
    → NoneAfter driver v us
NoneAfter-later driver t v [] h n = tt
NoneAfter-later driver t v (u ∷ us) h n =
    (λ own. omega (arith, h, n.0 own), NoneAfter-later driver t v us h n.1)

-- What the query gives: no row of the driver, or the newest one.
abbrev pub IsLatest : String → Option LocationUpdate → List LocationUpdate → Type 0
IsLatest driver none us = where_ (λ u. u.driver_id == driver) us ≡ []
IsLatest driver (some v) us = (v.driver_id ≡ driver) × NoneAfter driver v.recorded_at us

NoneAfter-absent :
    (driver : String) (t : Time) (us : List LocationUpdate)
    → where_ (λ u. u.driver_id == driver) us ≡ []
    → NoneAfter driver t us
unfolding where_
NoneAfter-absent driver t [] h = tt
NoneAfter-absent driver t (u ∷ us) h = (
  λ own. ground (arith, h, eq_iff u.driver_id driver, own),
  NoneAfter-absent driver t us (ground (arith, h)),
)

-- The row is the driver's: it or the rest's newest is the newest.
IsLatest-own :
    (driver : String) (u : LocationUpdate) (rest : Option LocationUpdate) (us : List LocationUpdate)
    → u.driver_id ≡ driver
    → IsLatest driver rest us
    → IsLatest driver
        (elim rest [
          | none ↦ some u
          | some v ↦ if ltb u.recorded_at v.recorded_at then some v else some u
        ])
        (u ∷ us)
IsLatest-own driver u none us own h =
    (own, (λ _. omega arith, NoneAfter-absent driver u.recorded_at us h))
IsLatest-own driver u (some v) us own h = elim (Bool-cases (ltb u.recorded_at v.recorded_at)) [
  | inl older ↦ rw older (h.0, (λ _. ground (arith, older), h.1))
  | inr newer ↦ rw newer (
    own,
    (
      λ _. omega arith,
      NoneAfter-later driver v.recorded_at u.recorded_at us (ground (arith, newer)) h.1,
    ),
  )
]

IsLatest-other :
    (driver : String) (u : LocationUpdate) (rest : Option LocationUpdate) (us : List LocationUpdate)
    → (u.driver_id == driver) ≡ false
    → IsLatest driver rest us
    → IsLatest driver rest (u ∷ us)
unfolding where_
IsLatest-other driver u none us other h = ground (arith, other, h)
IsLatest-other driver u (some v) us other h =
    (h.0, (λ own. ground (arith, other, own, eq_iff u.driver_id driver), h.1))

latest-IsLatest :
    (driver : String) (us : List LocationUpdate) → IsLatest driver (latest driver us) us
unfolding latest where_
latest-IsLatest driver [] = refl
latest-IsLatest driver (u ∷ us) = elim (Bool-cases (u.driver_id == driver)) [
  | inl own ↦
      rw (own, latest)
        (IsLatest-own driver u (latest driver us) us ((eq_iff u.driver_id driver).0 own)
          (latest-IsLatest driver us))
  | inr other ↦
      rw (other, latest)
        (IsLatest-other driver u (latest driver us) us other (latest-IsLatest driver us))
]

-- The last location that is answered is the newest of the driver's stored ones by the time at which
-- it was recorded; where none is answered the driver has none.
pub get_last_location-IsLatest :
    (driver : String) (w w' : World) (found : Option LocationUpdate)
    → get_last_location driver w ≡ (ok found, w')
    → IsLatest driver found w.locations
unfolding get_last_location call
get_last_location-IsLatest driver w w' found h =
    let e : latest driver w.locations ≡ found = ground arith in
    rw (← e) (latest-IsLatest driver w.locations)

-- What a stream of requests stores where no call fails, the newest first.
abbrev pub stored : (ℕ → Time) → ℕ → List StreamRequest → List LocationUpdate → List LocationUpdate
stored clock n [] us = us
stored clock n (r ∷ rs) us = stored clock (n + 1 + 1 + 1 + 1) rs (update_of r (clock n) ∷ us)

abbrev pub count_requests : List StreamRequest → ℕ
count_requests [] = 0
count_requests (_ ∷ rs) = count_requests rs + 1

abbrev pub count_acks : List Ack → ℕ
count_acks [] = 0
count_acks (_ ∷ acks) = count_acks acks + 1

-- The world after one round.
abbrev after : StreamRequest → World → World
after r w = record w {
  ticks = w.ticks + 1 + 1 + 1 + 1;
  locations = update_of r (w.env.clock w.ticks) ∷ w.locations;
}

acknowledge-up :
    (r : StreamRequest) (w : World)
    → w.env.fault (w.ticks + 1) ≡ none
    → w.env.fault (w.ticks + 1 + 1 + 1) ≡ none
    → acknowledge r w ≡ (
      ok (record {
        driver_id = r.driver_id;
        event_at = w.env.clock (w.ticks + 1 + 1);
        in_geofence = false;
      }),
      after r w,
    )
unfolding acknowledge save_location now call
acknowledge-up r w up up' = ground (arith, up, up')

stream_location-receives :
    (r : StreamRequest) (frames : List Frame) (ack : Ack) (w v : World)
    → acknowledge r w ≡ (ok ack, v)
    → stream_location (receives r ∷ frames) w ≡ (
      ack ∷ (stream_location frames v).0,
      (stream_location frames v).1,
      (stream_location frames v).2,
    )
unfolding stream_location
stream_location-receives r frames ack w v e = ground (arith, e)

-- A stream of locations that comes to its end, where no call fails: every location is stored, with
-- its own time of recording or that of its arrival, each is acknowledged once, and the stream ends
-- without an error.
pub stream_location-stores :
    (rs : List StreamRequest) (w : World)
    → ((n : ℕ) → w.env.fault n ≡ none)
    → let (acks, end, w') = stream_location (map receives rs) w in
      (end ≡ ok tt)
      × (count_acks acks ≡ count_requests rs)
      × (w'.locations ≡ stored w.env.clock w.ticks rs w.locations)
unfolding stream_location
stream_location-stores [] w up = (refl, refl, refl)
stream_location-stores (r ∷ rs) w up =
    let step = acknowledge-up r w (up (w.ticks + 1)) (up (w.ticks + 1 + 1 + 1)) in
    let rest = stream_location-stores rs (after r w) up in
    rw (stream_location-receives r (map receives rs) _ w (after r w) step)
      (rest.0, ground (arith, rest.1), rest.2)

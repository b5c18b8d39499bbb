-- ===== src/Frontend/Pages/Booked.antt =====
-- What a page shows after a booking, from the tables of the server to the countdown.
use ticketvault.Prelude.{ℕ, ◌+◌, ◌*◌, ◌≡◌, refl, inl, inr, none, some, arith, ok}
use mathlib.Core.Path.{subst}
use ticketvault.Types.{Seat, Booking, BookingStatus, CreateBookingRequest, BookingResponse, client}
use ticketvault.Table.{find_where}
use ticketvault.Db.{Db, booking_at, insert_audit}
use ticketvault.Redis.{Redis, idempotency}
use ticketvault.World.{World}
use ticketvault.Booking.{Env, new_booking}
use ticketvault.Booking.Creation.{created, booked_response}
use ticketvault.Service.{Polls, create_booking}
use ticketvault.Offers.{Config}
use ticketvault.Service.Refines.{IsUnbooked, create_booking-OneBooking}
use ticketvault.Frontend.{answered, hold_answer, set_active_booking}
use ticketvault.Frontend.Pages.{Panel, handle_book}

module _ (R : Redis) (cfg : Config) (env : Env) (user_id : ℕ) (request : CreateBookingRequest)
    (key : ℕ) where
  open R use {get}

  -- What the panel shows of a booking that the answer names, and that the tables hold.
  abbrev pub ShowsBooking : ℕ → BookingResponse → Db → ℕ → Panel → Type 0
  ShowsBooking fresh r db k p =
      let shown = handle_book request.event_id (some request.seat_id) fresh (answered r) p in
      (shown.checkout ≡ some k)
      × (shown.store.active_booking_id ≡ some k)
      × ((b : Booking) × (booking_at k db ≡ some b)
          × (b.user_id ≡ user_id)
          × (b.status ≡ BookingStatus.pending)
          × (shown.store.reservation_expires_at ≡ some b.expires_at))

  booked_shown :
      (fresh amount : ℕ) (s : Seat) (db : Db) (p : Panel)
      → ShowsBooking fresh
          (booked_response env user_id request (client user_id key) amount cfg.ttl_seconds s)
          (created env user_id request (client user_id key) amount cfg.ttl_seconds db)
          env.uuid
          p
  unfolding handle_book hold_answer set_active_booking find_where insert_audit new_booking
  booked_shown fresh amount s db p =
      let b =
        new_booking env user_id request (client user_id key) amount
          (env.now + cfg.ttl_seconds * 1000) in
      (refl, refl, (b, ground arith, refl, refl, refl))

  -- If a request under a free key is answered with a booking, the panel leads to the checkout of this
  -- booking, and the tables hold it for the user, pending, until the time at which the countdown of the
  -- page ends.
  pub countdown_of_booking :
      (polls : Polls) (w : World R.Store) (fresh k : ℕ) (r : BookingResponse) (p : Panel)
      → get w.redis (idempotency user_id key) ≡ none
      → (create_booking R cfg env polls user_id request key w).0 ≡ ok r
      → r.booking_id ≡ some k
      → ShowsBooking fresh r (create_booking R cfg env polls user_id request key w).1.db k p
  countdown_of_booking polls w fresh k r p free replied named =
      elim (create_booking-OneBooking R cfg env user_id request key polls w free) [
        | inl (same, unbooked) ↦
            let named_none : r.booking_id ≡ none = subst IsUnbooked replied unbooked in ground arith
        | inr (s, amount, found, available, after, result) ↦
            let r' =
              booked_response env user_id request (client user_id key) amount cfg.ttl_seconds s in
            let same : r' ≡ r = cc in
            let uuid : env.uuid ≡ k = cc in
            let db = created env user_id request (client user_id key) amount cfg.ttl_seconds w.db in
            let shown = booked_shown fresh amount s w.db p in
            let shown_k = subst (λ (j : ℕ). ShowsBooking fresh r' db j p) uuid shown in
            rw after (subst (λ (x : BookingResponse). ShowsBooking fresh x db k p) same shown_k)
      ]

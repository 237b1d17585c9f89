-- ===== src/Sso/Service/Tickets.antt =====
-- LogoutTicketService.redeem: a ticket that is redeemed again.
use orbita_backend.Prelude.{
  String, ◌≡◌, ◌≤◌, refl, none, some, inl, inr, first, update, List, [], ◌∷◌, arith, Option-cases,
}
use orbita_backend.Data.{Db, Time, LogoutTicket}
use orbita_backend.Crypto.{Crypto}
use orbita_backend.Exec.{ok, run}
use orbita_backend.Sso.Service.{redeems_ticket, redeem_ticket}

module _ (crypto : Crypto) (ticket : String) (now again : Time) (later : now ≤ again) where
  redeemed :
      (rows : List LogoutTicket)
      → first
          (redeems_ticket crypto again ticket)
          (update (redeems_ticket crypto now ticket) (λ t. record t { used_at = some now }) rows)
        ≡ none
  redeemed [] = refl
  redeemed (t ∷ rows) = ground (arith, redeemed rows)

  closed :
      (rows : List LogoutTicket)
      → first (redeems_ticket crypto now ticket) rows ≡ none
      → first (redeems_ticket crypto again ticket) rows ≡ none
  closed [] h = refl
  closed (t ∷ rows) h = ground (arith, closed rows)

  -- A ticket that a request has tried to redeem, with success or without, is refused at any later
  -- time by a request on the rows that the first one left.
  pub redeem_ticket_once :
      (db : Db)
      → (run (redeem_ticket crypto again ticket) (run (redeem_ticket crypto now ticket) db).1).0
        ≡ ok none
  unfolding redeem_ticket
  redeem_ticket_once db =
      elim (Option-cases (first (redeems_ticket crypto now ticket) db.logout_tickets)) [
        | inl e ↦ rw (e, closed db.logout_tickets e) refl
        | inr (t, found) ↦ rw (found, redeemed db.logout_tickets) refl
      ]

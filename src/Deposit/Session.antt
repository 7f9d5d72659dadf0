-- ===== src/Deposit/Session.antt =====
-- What the user can do with the deposit dialog while a transaction runs. A handler runs from its click
-- to its last `setStatus`, and the buttons look at the status in between.
use b1nary_xlayer_hackathon.Prelude.{
  ℕ, ◌+◌, ◌-◌, ◌≤◌, ◌≡◌, Bool, true, false, not, if◌then◌else◌, arith,
}
use b1nary_xlayer_hackathon.Deposit.Form.{Status, idle, pending, done}

-- The status and the asset menu; `in_flight` handlers have sent or will send, and are not at their
-- end. `slips` counts the assets picked in the menu while the status was pending.
pub record Session : Type 0 where
  pub status : Status
  pub menu_open : Bool
  pub in_flight : ℕ
  pub slips : ℕ

abbrev pub is_pending : Status → Bool
is_pending pending = true
is_pending _ = false

abbrev pub is_done : Status → Bool
is_done done = true
is_done _ = false

abbrev pub fresh : Session
fresh = record { status = idle; menu_open = false; in_flight = 0; slips = 0 }

-- A click on the button of the form, behind `parseAmount`.
unfoldable pub submit : Session → Session
submit s = record s { status = pending; in_flight = s.in_flight + 1 }

-- A tab, or a wallet.
unfoldable pub reset : Session → Session
reset s = record s { status = idle }

unfoldable pub toggle_menu : Session → Session
toggle_menu s = record s { menu_open = not s.menu_open }

-- An asset of the menu.
unfoldable pub pick_asset : Session → Session
pick_asset s = record s {
  status = idle;
  menu_open = false;
  slips = if is_pending s.status then s.slips + 1 else s.slips;
}

-- A handler ends.
unfoldable pub settle : Status → Session → Session
settle status s = record s { status = status; in_flight = s.in_flight - 1 }

-- What a button's `disabled` leaves possible, and the end of a handler. The assets of an open menu have
-- no `disabled`.
pub data Step (s : Session) : Session → Type 0 where
  submits : is_pending s.status ≡ false → is_done s.status ≡ false → Step s (submit s)
  resets : is_pending s.status ≡ false → Step s (reset s)
  toggles : is_pending s.status ≡ false → is_done s.status ≡ false → Step s (toggle_menu s)
  picks : s.menu_open ≡ true → Step s (pick_asset s)
  succeeds : 1 ≤ s.in_flight → Step s (settle done s)
  fails : 1 ≤ s.in_flight → Step s (settle idle s)

pub data Reachable : Session → Type 0 where
  start : Reachable fresh
  after : {s t : Session} → Reachable s → Step s t → Reachable t

abbrev running : Status → ℕ
running status = if is_pending status then 1 else 0

-- While the status is pending, a handler is in flight beside those that slipped.
record IsBounded (s : Session) : Type 0 where
  few : s.in_flight ≤ running s.status + s.slips

Step-IsBounded : {s t : Session} → Step s t → IsBounded s → IsBounded t
unfolding submit reset toggle_menu pick_asset settle
Step-IsBounded (submits p d) b = record { few = ground arith }
Step-IsBounded (resets p) b = record { few = ground arith }
Step-IsBounded (toggles p d) b = record { few = ground arith }
Step-IsBounded (picks o) b = record { few = ground arith }
Step-IsBounded (succeeds n) b = record { few = ground arith }
Step-IsBounded (fails n) b = record { few = ground arith }

Reachable-IsBounded : {s : Session} → Reachable s → IsBounded s
Reachable-IsBounded start = record { few = omega arith }
Reachable-IsBounded (after r st) = Step-IsBounded st (Reachable-IsBounded r)

-- At no time more transactions of the dialog run than one and one more for each asset that was picked
-- while the status was pending. So without such a pick there is at most one.
pub in_flight-le-slips : {s : Session} → Reachable s → s.in_flight ≤ 1 + s.slips
in_flight-le-slips r = let b = Reachable-IsBounded r in ground arith

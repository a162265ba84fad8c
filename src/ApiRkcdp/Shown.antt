-- ===== src/ApiRkcdp/Shown.antt =====
-- What a shown node state tells, and what a started rebuild has been checked for
-- (rkcdp/api_rkcdp.py).
use Prim.Native.String.{String}
use text.Mathlib.Text.{◌==◌ as str_eq, starts_with}
use io_filter_driver_for_lin.Base.{
  ℕ, ◌-◌, ◌≤◌, ◌≡◌, refl, ◌⊎◌, Bool, true, false, Option, none, some, List, arith, inl, inr,
  Option-cases,
}
use io_filter_driver_for_lin.ApiRkcdp.{
  Status, stale_sec, bitmap, paused, cdp, node_state, Payload, Host, started, has_slash, or_empty,
  rebuild_cmd, is_proxmox, rkcdp_rebuild, rebuild_checked,
}

-- A node is shown as protected (cdp, bitmap or paused) only if its status is at most 60 s old and
-- its base copy was completed.
pub node_state_protected :
    (now : ℕ) (status : Option Status) (phase : Option String) (has_base : Bool)
    → let s = node_state now status phase has_base in
      (s ≡ cdp) ⊎ (s ≡ bitmap) ⊎ (s ≡ paused)
      → (has_base ≡ true) × ((st : Status) × (status ≡ some st) × (now - st.time ≤ stale_sec))
unfolding node_state
node_state_protected now none phase has_base h = ground arith
node_state_protected now (some st) phase has_base h = (ground arith, (st, refl, ground arith))

-- A rebuild is started only for a request that names a node and a known host, where the node's
-- name holds no slash and does not begin with a dot, no rebuild of it is running, and the host is a
-- Proxmox host; and then the command is that of the node and the host.
pub rkcdp_rebuild_started :
    (strip lower : String → String) (str : ℕ → String) (bin journal progress : String)
    (hosts : ℕ → Option Host) (running : Bool) (payload : Payload) (cmd : List String)
    → rkcdp_rebuild strip lower str bin journal progress hosts running payload ≡ started cmd
    → let node = strip (or_empty payload.node) in
      (running ≡ false)
      × (str_eq node "" ≡ false)
      × (has_slash node ≡ false)
      × (starts_with node "." ≡ false)
      × ((id : ℕ) × (h : Host) × (payload.host_id ≡ some id)
          × (hosts id ≡ some h)
          × (is_proxmox strip lower str bin journal progress h ≡ true)
          × (cmd ≡ rebuild_cmd strip lower str bin journal progress node h payload))
unfolding rkcdp_rebuild rebuild_checked
rkcdp_rebuild_started strip lower str bin journal progress hosts running payload cmd e =
    elim (Option-cases payload.host_id) [
      | inl missing ↦ absurd (ground arith)
      | inr (id, given) ↦ elim (Option-cases (hosts id)) [
        | inl unknown ↦ absurd (ground arith)
        | inr (h, known) ↦ (
          ground arith,
          ground arith,
          ground arith,
          ground arith,
          (id, h, given, known, ground arith, ground arith),
        )
      ]
    ]

-- ===== src/ApiRkcdp.antt =====
-- rkcdp/api_rkcdp.py: the state that the manager API shows for a node, and the endpoint that
-- starts a rebuild. Nodes has the node list and the other endpoints.
pub mod Shown
pub mod Nodes
use Prim.Native.String.{String}
use Prim.Native.Char.{code}
use text.Mathlib.Text.{◌==◌ as str_eq, starts_with}
use io_filter_driver_for_lin.Base.{
  ℕ, zero, ◌+◌, ◌-◌, ◌≤◌, Bool, true, false, ◌&&◌, ◌||◌, not, Option, none, some, List, [], ◌∷◌,
  ◌++◌, leb, ltb, if◌then◌else◌, ◌==◌,
}

abbrev pub stale_sec : ℕ
stale_sec = 60

-- What _nodes reads of status.json and of seed.json; times in seconds.
pub record Status : Type 0 where
  pub time : ℕ
  pub state : Option String

pub data NodeState : Type 0 where
  seeding waiting syncing unprotected stale bitmap paused cdp : NodeState

abbrev pub is_text : Option String → String → Bool
is_text none s = false
is_text (some t) s = str_eq t s

-- seed.get("phase") in ("locate", "copy", "seed", "replica", "drain")
unfoldable pub seed_running : Option String → Bool
seed_running phase =
    is_text phase "locate"
    || is_text phase "copy"
    || is_text phase "seed"
    || is_text phase "replica"
    || is_text phase "drain"

-- age is not None and age <= STALE_SEC
unfoldable pub fresh : ℕ → Option Status → Bool
fresh now none = false
fresh now (some status) = leb (now - status.time) stale_sec

abbrev pub state_of : Option Status → Option String
state_of none = none
state_of (some status) = status.state

-- The ladder of _nodes; `has_base` is "base_end_seq" in manifest.
unfoldable pub node_state : ℕ → Option Status → Option String → Bool → NodeState
unfolding fresh seed_running
node_state now status phase has_base =
    if fresh now status && seed_running phase
    then seeding
    else if fresh now status && is_text (state_of status) "WAITING"
    then waiting
    else if fresh now status && is_text (state_of status) "SYNCING"
    then syncing
    else if not has_base
    then unprotected
    else if not (fresh now status)
    then stale
    else if is_text (state_of status) "BITMAP" || is_text (state_of status) "RECOVERING"
    then bitmap
    else if is_text (state_of status) "PAUSED"
    then paused
    else cdp

pub record Payload : Type 0 where
  pub node : Option String
  pub host_id : Option ℕ
  pub vmid : Option ℕ
  pub storage : Option String
  pub bridge : Option String
  pub force : Bool
  pub source : Option String

-- A row of the table `hosts`.
pub record Host : Type 0 where
  pub hostname : String
  pub ip : String
  pub ssh_user : Option String
  pub hv_type : Option String

-- The command that is started, or the status code of the HTTPException.
pub data Reply : Type 0 where
  started : List String → Reply
  http_error : ℕ → Reply

-- x or ""
abbrev pub or_empty : Option String → String
or_empty none = ""
or_empty (some s) = s

-- "/" in s
unfoldable pub has_slash : String → Bool
has_slash String.[] = false
has_slash (String.◌∷◌ c s) = let rest = has_slash s in code c == b'/' || rest

-- if payload.get(key): cmd += [flag, payload[key]]
unfoldable pub text_option : String → Option String → List String
text_option flag none = []
text_option flag (some s) = if str_eq s "" then [] else flag ∷ s ∷ []

-- if payload.get("vmid"): cmd += ["--vmid", str(int(payload["vmid"]))]
unfoldable pub vmid_option : (ℕ → String) → Option ℕ → List String
vmid_option str none = []
vmid_option str (some vmid) = if vmid == 0 then [] else "--vmid" ∷ str vmid ∷ []

unfoldable pub source_option : Option String → List String
source_option source =
    if is_text source "replica" || is_text source "seed"
    then "--from" ∷ or_empty source ∷ []
    else []

-- Python's str.strip, str.lower and str of a number are parameters.
module _ (strip lower : String → String) (str : ℕ → String)
    (rebuild_bin journal progress : String) where
  unfoldable pub rebuild_cmd : String → Host → Payload → List String
  rebuild_cmd node h payload =
      (rebuild_bin
        ∷ "--node"
        ∷ node
        ∷ "--host"
        ∷ h.ip
        ∷ "--user"
        ∷ (if str_eq (or_empty h.ssh_user) "" then "root" else or_empty h.ssh_user)
        ∷ "--journal"
        ∷ journal
        ∷ "--progress"
        ∷ progress
        ∷ [])
      ++ (vmid_option str payload.vmid
          ++ (text_option "--storage" payload.storage
              ++ (text_option "--bridge" payload.bridge
                  ++ ((if payload.force then "--force" ∷ [] else [])
                      ++ source_option payload.source))))

  unfoldable pub is_proxmox : Host → Bool
  is_proxmox h =
      let hv = lower (or_empty h.hv_type) in str_eq hv "proxmox" || str_eq hv "pve" || str_eq hv ""

  -- The later checks, once the request names a node and a host.
  unfoldable pub rebuild_checked : (ℕ → Option Host) → Bool → String → ℕ → Payload → Reply
  rebuild_checked hosts running node host_id payload =
      if has_slash node || starts_with node "."
      then http_error 400
      else if running
      then http_error 409
      else elim (hosts host_id) [
        | none ↦ http_error 404
        | some h ↦ if is_proxmox h then started (rebuild_cmd node h payload) else http_error 400
      ]

  -- `running`: the node's progress file says that a rebuild runs.
  unfoldable pub rkcdp_rebuild : (ℕ → Option Host) → Bool → Payload → Reply
  rkcdp_rebuild hosts running payload =
      let node = strip (or_empty payload.node) in
      if str_eq node "" then http_error 400 else elim payload.host_id [
        | none ↦ http_error 400
        | some host_id ↦ rebuild_checked hosts running node host_id payload
      ]

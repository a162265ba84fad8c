-- ===== src/ApiRkcdp/Nodes.antt =====
-- _nodes of rkcdp/api_rkcdp.py, the cache that a thread fills with it, and the endpoints that only
-- read. A file is what json.load gives, or `none` where it is missing, unreadable or an empty
-- dictionary; a key that is missing or null is `none`. Times in seconds.
pub mod Listed
pub mod Fresh
use Prim.Native.String.{String}
use Prim.Native.Char.{code}
use text.Mathlib.Text.{◌==◌ as str_eq, starts_with}
use io_filter_driver_for_lin.Base.{
  ℕ, ◌+◌, ◌-◌, ◌*◌, Bool, true, false, ◌&&◌, ◌||◌, not, Option, none, some, List, [], ◌∷◌, ℤ, pos,
  negsuc, leb, ltb, if◌then◌else◌, ◌==◌,
}
use io_filter_driver_for_lin.ApiRkcdp.{Status, NodeState, is_text, node_state}

pub record NodeStatus : Type 0 where
  pub time : Option ℕ
  pub state : Option String
  pub last_seq : Option ℕ
  pub last_time : Option ℕ
  pub seq_next : Option ℕ
  pub overflows : Option ℕ
  pub pending_bytes : Option ℕ
  pub base_copy : Option ℕ  -- the bytes done

pub record Manifest : Type 0 where
  pub has_base : Bool
  pub base_time : Option ℕ
  pub device : Option String

pub record NodeJson : Type 0 where
  pub ips : Option (List String)
  pub mem_mb : Option ℕ
  pub cpus : Option ℕ

pub record SeedShown : Type 0 where
  pub phase : Option String
  pub percent : Option ℕ
  pub msg : Option String

-- The progress file of a rebuild.
pub record Prog : Type 0 where
  pub state : Option String

-- What os.listdir gives, with what its directory holds: the size and the blocks of replica.raw, and
-- whether seed.raw exists.
pub record Entry : Type 0 where
  pub name : String
  pub is_dir : Bool
  pub manifest : Option Manifest
  pub status : Option NodeStatus
  pub node_json : Option NodeJson
  pub seed : Option SeedShown
  pub replica : Option (ℕ × ℕ)
  pub seed_raw : Bool
  pub prog : Option Prog

pub record Row : Type 0 where
  pub node : String
  pub state : NodeState
  pub status_age_sec : Option ℤ
  pub last_seq : Option ℕ
  pub seq_next : Option ℕ
  pub overflows : Option ℕ
  pub applied_seq : Option ℕ
  pub applied_time : Option ℕ
  pub pending_bytes : ℕ
  pub replica_bytes : Option ℕ
  pub replica_used_bytes : Option ℕ
  pub device : Option String
  pub ips : Option (List String)
  pub mem_mb : Option ℕ
  pub cpus : Option ℕ
  pub base_copy : Option ℕ
  pub seed : Option SeedShown
  pub seed_present : Bool
  pub rebuilding : Bool
  pub rebuild : Option Prog

-- d.get(key), where d may be {}
abbrev pub get {ℓ κ} : {A : Type ℓ} {B : Type κ} → (A → Option B) → Option A → Option B
get key none = none
get key (some d) = key d

-- d.get(key, 0)
abbrev pub get_zero : Option ℕ → ℕ
get_zero none = 0
get_zero (some n) = n

-- x or y, for numbers
abbrev pub or_else : Option ℕ → Option ℕ → Option ℕ
or_else none y = y
or_else (some n) y = if n == 0 then y else some n

abbrev pub age_of : ℕ → ℕ → ℤ
age_of now t = if leb t now then pos (now - t) else negsuc (t - now - 1)

abbrev pub short : NodeStatus → Status
short s = record { time = get_zero s.time; state = s.state }

abbrev pub map_option {ℓ κ} : {A : Type ℓ} {B : Type κ} → (A → B) → Option A → Option B
map_option f none = none
map_option f (some a) = some (f a)

abbrev pub base_of : Option Manifest → Bool
base_of none = false
base_of (some m) = m.has_base

-- bool(prog and prog.get("state") == "running")
abbrev pub is_running : Option Prog → Bool
is_running none = false
is_running (some p) = is_text p.state "running"

unfoldable pub row : ℕ → Entry → Row
row now e = record {
  node = e.name;
  state =
      node_state now (map_option short e.status) (get (λ (s : SeedShown). s.phase) e.seed)
        (base_of e.manifest);
  status_age_sec = map_option (λ (s : NodeStatus). age_of now (get_zero s.time)) e.status;
  last_seq = get (λ (s : NodeStatus). s.last_seq) e.status;
  seq_next = get (λ (s : NodeStatus). s.seq_next) e.status;
  overflows = get (λ (s : NodeStatus). s.overflows) e.status;
  applied_seq = get (λ (s : NodeStatus). s.last_seq) e.status;
  applied_time =
      or_else (get (λ (s : NodeStatus). s.last_time) e.status)
        (get (λ (m : Manifest). m.base_time) e.manifest);
  pending_bytes = get_zero (get (λ (s : NodeStatus). s.pending_bytes) e.status);
  replica_bytes = map_option (λ (r : ℕ × ℕ). r.0) e.replica;
  replica_used_bytes = map_option (λ (r : ℕ × ℕ). r.1 * 512) e.replica;
  device = get (λ (m : Manifest). m.device) e.manifest;
  ips = get (λ (n : NodeJson). n.ips) e.node_json;
  mem_mb = get (λ (n : NodeJson). n.mem_mb) e.node_json;
  cpus = get (λ (n : NodeJson). n.cpus) e.node_json;
  base_copy = get (λ (s : NodeStatus). s.base_copy) e.status;
  seed = e.seed;
  seed_present = e.seed_raw;
  rebuilding = is_running e.prog;
  rebuild = e.prog;
}

-- not os.path.isdir(d) or name == "rebuild" or name.startswith(".")
abbrev pub skipped : Entry → Bool
skipped e = not e.is_dir || str_eq e.name "rebuild" || starts_with e.name "."

-- s <= t, by code points
unfoldable pub text_le : String → String → Bool
text_le String.[] t = true
text_le (String.◌∷◌ c s) String.[] = false
text_le (String.◌∷◌ c s) (String.◌∷◌ d t) =
    let rest = text_le s t in ltb (code c) (code d) || code c == code d && rest

unfoldable pub insert : Entry → List Entry → List Entry
insert e [] = e ∷ []
insert e (f ∷ entries) =
    let rest = insert e entries in if text_le e.name f.name then e ∷ f ∷ entries else f ∷ rest

unfoldable pub sorted : List Entry → List Entry
sorted [] = []
sorted (e ∷ entries) = insert e (sorted entries)

-- The loop of _nodes.
unfoldable pub rows : ℕ → List Entry → List Row
rows now [] = []
rows now (e ∷ entries) = if skipped e then rows now entries else row now e ∷ rows now entries

-- The journal's directory may be missing.
unfoldable pub nodes : ℕ → Option (List Entry) → List Row
nodes now none = []
nodes now (some entries) = rows now (sorted entries)

-- _cache, with the time of the last refresh
pub record Cache : Type 0 where
  pub cached : List Row
  pub as_of : ℕ

-- A round of _refresh_loop: what _nodes returns, unless it raised, and the time after it.
unfoldable pub refresh_loop : List (Option (List Row) × ℕ) → Cache → Cache
refresh_loop [] c = c
refresh_loop ((none, t) ∷ rounds) c = refresh_loop rounds c
refresh_loop ((some out, t) ∷ rounds) c = refresh_loop rounds (record { cached = out; as_of = t })

-- GET /api/rkcdp/nodes
unfoldable pub rkcdp_nodes : Cache → List Row × ℕ
rkcdp_nodes c = (c.cached, c.as_of)

-- GET /api/rkcdp/rebuild/{node}
unfoldable pub rkcdp_rebuild_status : Option Prog → Prog
rkcdp_rebuild_status none = record { state = some "none" }
rkcdp_rebuild_status (some p) = p

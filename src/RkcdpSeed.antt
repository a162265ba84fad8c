-- ===== src/RkcdpSeed.antt =====
-- rkcdp/rkcdp-seed.py: the progress record seed.json with its resume point, and the chunked copy of
-- the disk into replica.raw. `dd` runs on the host and is a parameter.
pub mod Resumed
pub mod Retried
pub mod Main
use Prim.Native.String.{String}
use text.Mathlib.Text.{◌==◌ as str_eq}
use io_filter_driver_for_lin.Base.{
  ℕ, zero, suc, ◌+◌, ◌-◌, ◌*◌, ◌/◌, Bool, true, false, ◌&&◌, ◌||◌, not, Option, none, some, List,
  [], ◌∷◌, if◌then◌else◌, ◌==◌, min, take,
}
use io_filter_driver_for_lin.Image.{Image}

-- The `resume` dictionary of seed.json.
pub record Resume : Type 0 where
  pub host : Option String
  pub vmid : Option ℕ
  pub total : Option ℕ
  pub chunk : Option ℕ

abbrev pub no_resume : Resume
no_resume = record { host = none; vmid = none; total = none; chunk = none }

pub record SeedJson : Type 0 where
  pub phase : String
  pub percent : Option ℕ
  pub resume : Resume

-- The keyword arguments of a call of `progress` that reports a finished chunk.
pub record ChunkReport : Type 0 where
  pub host : String
  pub vmid : ℕ
  pub total : ℕ
  pub chunk : ℕ

-- if "chunk" in kw: resume.update(…)
unfoldable pub update_resume : Option ChunkReport → Resume → Resume
update_resume none r = r
update_resume (some k) r = record {
  host = some k.host;
  vmid = some k.vmid;
  total = some k.total;
  chunk = some k.chunk;
}

-- progress: the resume point that it leaves, and what it writes to seed.json
unfoldable pub seed_progress : String → Option ℕ → Option ChunkReport → Resume → Resume × SeedJson
unfolding update_resume
seed_progress phase pct kw r =
    let r' = if str_eq phase "done" then no_resume else update_resume kw r in
    (r', record { phase = phase; percent = pct; resume = r' })

abbrev pub seed_ch : ℕ
seed_ch = 67108864

abbrev pub nchunks : ℕ → ℕ
nchunks total = (total + seed_ch - 1) / seed_ch

abbrev pub opt_text : Option String → String → Bool
opt_text none s = false
opt_text (some t) s = str_eq t s

abbrev pub opt_num : Option ℕ → ℕ → Bool
opt_num none n = false
opt_num (some m) n = m == n

abbrev pub after_chunk : Option ℕ → ℕ
after_chunk none = 0
after_chunk (some k) = k + 1

-- The chunk at which the copy begins: after the one last reported, for the same VM and disk.
unfoldable pub start_chunk : Resume → String → ℕ → ℕ → ℕ
start_chunk r host vmid total =
    if opt_text r.host host && opt_num r.vmid vmid && opt_num r.total total
    then after_chunk r.chunk
    else 0

-- pct = int(min(total, (i + 1) * CH) / total * 100)
unfoldable pub chunk_percent : ℕ → ℕ → ℕ
chunk_percent total i = min total ((i + 1) * seed_ch) * 100 / total

-- if pct != last_pct or now - last_w > 5: progress("copy", …), where `late` is the second test
unfoldable pub report_chunk : String → ℕ → ℕ → Option ℕ → Bool → ℕ → Resume → Resume
unfolding chunk_percent seed_progress
report_chunk host vmid total last_pct late i r =
    let pct = chunk_percent total i in
    if not (opt_num last_pct pct) || late
    then (seed_progress "copy" (some pct)
        (some (record { host = host; vmid = vmid; total = total; chunk = i })) r).0
    else r

-- last_pct after a line
unfoldable pub next_pct : Option ℕ → Bool → ℕ → Option ℕ
next_pct last_pct late pct = if not (opt_num last_pct pct) || late then some pct else last_pct

-- The loop over the printed lines, chunk `i` and those after it: the resume point. One flag a line
-- says whether five seconds have passed since the last report; `last_pct` is none for -1.
unfoldable pub report_loop : String → ℕ → ℕ → List Bool → ℕ → Option ℕ → Resume → Resume
unfolding report_chunk next_pct
report_loop host vmid total [] i last_pct r = r
report_loop host vmid total (late ∷ lines) i last_pct r =
    report_loop host vmid total lines (suc i) (next_pct last_pct late (chunk_percent total i))
      (report_chunk host vmid total last_pct late i r)

-- A copy that broke off: after how many chunks at most, and what is known of the lines that could
-- still be read of it.
pub record Broken : Type 0 where
  pub chunks : ℕ
  pub lines : List Bool

module _ (dd : Image → ℕ → Image → Image) where
  -- for i in $(seq i …): dd … skip=$i seek=$i count=1, over `count` chunks
  unfoldable pub dd_loop : Image → ℕ → ℕ → Image → Image
  dd_loop disk zero i replica = replica
  dd_loop disk (suc count) i replica = dd_loop disk count (suc i) (dd disk i replica)

  -- The whole copy from chunk `start` on.
  unfoldable pub seed_copy : Image → ℕ → ℕ → Image → Image
  seed_copy disk total start replica = dd_loop disk (nchunks total - start) start replica

  -- A run that breaks off: it begins at the resume point, copies some of the chunks that are left,
  -- and moves the resume point on as it reads the lines of chunks that are copied.
  unfoldable pub broken_copy : Image → String → ℕ → ℕ → Broken → Resume × Image → Resume × Image
  unfolding dd_loop report_loop start_chunk
  broken_copy disk host vmid total b (r, replica) =
      let start = start_chunk r host vmid total in
      let copied = min b.chunks (nchunks total - start) in
      (
        report_loop host vmid total (take copied b.lines) start none r,
        dd_loop disk copied start replica,
      )

  unfoldable pub broken_copies :
      Image → String → ℕ → ℕ → List Broken → Resume × Image → Resume × Image
  unfolding broken_copy
  broken_copies disk host vmid total [] s = s
  broken_copies disk host vmid total (b ∷ runs) s =
      broken_copies disk host vmid total runs (broken_copy disk host vmid total b s)

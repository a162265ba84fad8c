-- ===== src/Rkcdpd/Daemon/Copy/Converge.antt =====
-- On records that are applied again (base copy and bitmap recovery of rkcdp/rkcdpd.py): the device
-- is ahead of the ring, and the records that it is ahead by are applied over the copy once more.
use io_filter_driver_for_lin.Base.{
  ℕ, ◌-◌, ◌*◌, ◌≡◌, ◌⊎◌, refl, sym, ap, ◌∙◌, Bool, true, false, Option, none, List, [], ◌∷◌, ◌++◌,
  arith, length, All, if◌then◌else◌, ◌==◌, ◌||◌, Bool-cases, inl, inr, get_or-default, get_or-out,
  ◌&&◌,
}
use io_filter_driver_for_lin.Image.{Image, pwrite, within}
use io_filter_driver_for_lin.Dmcdp.{Item, rec_write, rec_discard, rec_zero}
use io_filter_driver_for_lin.Rkcdpd.Replica.Effect.{effect, PunchesZeros}
use io_filter_driver_for_lin.Rkcdpd.Daemon.{Daemon, apply_all}
use io_filter_driver_for_lin.Rkcdpd.Daemon.Copy.{copy_chunk, release_chunk}
use io_filter_driver_for_lin.Rkcdpd.Daemon.Copy.Loop.{
  effects, effects_local, effects-append, IsSized, IsInOrOut, fd-apply_all, copying-apply_all,
}
use io_filter_driver_for_lin.Rkcdpd.Daemon.Copy.Chunk.{landed, fd-copy_chunk}

-- At byte `i` the transformation writes a value of its own, or leaves the byte.
abbrev pub Overwrites : (Image → Image) → ℕ → Type 0
Overwrites f i = (a b : Image) → f a i ≡ f b i

abbrev pub Keeps : (Image → Image) → ℕ → Type 0
Keeps f i = (a : Image) → f a i ≡ a i

abbrev touches : Item → ℕ → Bool
touches (r, payload) i =
    if r.type == rec_write
    then within (r.sector * 512) (length payload) i
    else (r.type == rec_discard || r.type == rec_zero) && within (r.sector * 512) r.len i

pub effect_cases : (x : Item) (i : ℕ) → Overwrites (effect x) i ⊎ Keeps (effect x) i
unfolding effect pwrite
effect_cases (r, payload) i = elim (Bool-cases (touches (r, payload) i)) [
  | inl hit ↦ inl (λ a b. ground (arith, get_or-default payload (i - r.sector * 512) (a i) (b i)))
  | inr miss ↦ inr (λ a. ground (arith, get_or-out payload (i - r.sector * 512) (a i)))
]

pub effects_cases : (xs : List Item) (i : ℕ) → Overwrites (effects xs) i ⊎ Keeps (effects xs) i
effects_cases [] i = inr (λ a. refl)
effects_cases (x ∷ xs) i = elim (effects_cases xs i) [
  | inl over ↦ inl (λ a b. over (effect x a) (effect x b))
  | inr keeps ↦ elim (effect_cases x i) [
    | inl over ↦ inl (λ a b. keeps (effect x a) ∙ over a b ∙ sym (keeps (effect x b)))
    | inr keeps_one ↦ inr (λ a. keeps (effect x a) ∙ keeps_one a)
  ]
]

-- Applying records to a disk that is already ahead by the first of them, and then all of them
-- again, gives the same disk as applying them once.
pub effects_again :
    (ahead behind : List Item) (disk : Image) (i : ℕ)
    → effects (ahead ++ behind) (effects ahead disk) i ≡ effects (ahead ++ behind) disk i
effects_again ahead behind disk i = elim (effects_cases ahead i) [
  | inl over ↦
      ap (λ (t : Image). t i) (effects-append ahead behind (effects ahead disk))
      ∙ effects_local behind (effects ahead (effects ahead disk)) (effects ahead disk) i
          (over (effects ahead disk) disk)
      ∙ ap (λ (t : Image). t i) (sym (effects-append ahead behind disk))
  | inr keeps ↦ effects_local (ahead ++ behind) (effects ahead disk) disk i (keeps disk)
]

pub copying-copy_chunk :
    (fallocate : ℕ → ℕ → Image → Option Image) (zeros : PunchesZeros fallocate) (skip_zero : Bool)
    (dev : Image) (off n got : ℕ) (early late : List Item) (d : Daemon)
    → (copy_chunk fallocate skip_zero dev off n got early late d).0.copying ≡ none
unfolding copy_chunk release_chunk
copying-copy_chunk fallocate zeros skip_zero dev off n got early late d =
    copying-apply_all fallocate zeros _ _

-- A chunk of the disk is copied whole while the apply loop handles `early` and `late`; the records
-- `rest` are applied later. The device that is read holds the disk `disk`, from which all those
-- records start, and is `ahead` by any number of them. Then every byte of the chunk in the replica
-- is in the end that of the disk once all the records have reached it.
pub copy_chunk_converges :
    (fallocate : ℕ → ℕ → Image → Option Image) (zeros : PunchesZeros fallocate) (disk : Image)
    (off n : ℕ) (early late rest ahead behind : List Item) (d : Daemon) (i : ℕ)
    → ahead ++ behind ≡ (early ++ late) ++ rest
    → All IsSized early
    → All IsSized late
    → All (IsInOrOut off n) early
    → All (IsInOrOut off n) late
    → within off n i ≡ true
    → (apply_all fallocate rest
          (copy_chunk fallocate false (effects ahead disk) off n n early late d).0).replica.fd
        i
      ≡ effects ((early ++ late) ++ rest) disk i
copy_chunk_converges fallocate zeros disk off n early late rest ahead behind d i e se sl fe fl w =
    let dev = effects ahead disk in
    let copied = (copy_chunk fallocate false dev off n n early late d).0 in
    let base = landed false dev off n d.replica.fd in
    let read : base i ≡ dev i = ground arith in
    fd-apply_all fallocate zeros rest copied i
      (copying-copy_chunk fallocate zeros false dev off n n early late d)
    ∙ effects_local rest copied.replica.fd (effects (early ++ late) base) i
        (fd-copy_chunk fallocate zeros false dev off n n early late d i (omega arith) se sl fe fl)
    ∙ ap (λ (t : Image). t i) (sym (effects-append (early ++ late) rest base))
    ∙ effects_local ((early ++ late) ++ rest) base dev i read
    ∙ ap (λ xs. effects xs dev i) (sym e)
    ∙ effects_again ahead behind disk i
    ∙ ap (λ xs. effects xs disk i) e

-- ===== src/Fat/Disk.antt =====
-- kernel/fs/fat.c: the static variables, and the sectors of the drive. The functions of the disk
-- drivers come as a record `Disk`, whose state is a `D`.
use gnuwindows.Base.{
  ◌≡◌, refl, ℕ, ◌+◌, ◌-◌, ◌*◌, ◌%◌, ◌^◌, Bool, true, false, if◌then◌else◌, Memory, Status, ok, fail,
}

-- What a function of fat.c does: it yields a value, returns -1 (or 0, where that means a failure), or
-- loops for longer than its fuel.
pub data Outcome (S A : Type 0) : Type 0 where
  done : A → S → Outcome S A
  fails : S → Outcome S A
  hangs : Outcome S A

infixl 5 ◌>>=◌ ◌>>◌
abbrev pub ◌>>=◌ : {S A B : Type 0} → (S → Outcome S A) → (A → S → Outcome S B) → S → Outcome S B
◌>>=◌ m k s = elim (m s) [ done a t ↦ k a t | fails t ↦ fails t | hangs ↦ hangs ]

abbrev pub ◌>>◌ : {S A B : Type 0} → (S → Outcome S A) → (S → Outcome S B) → S → Outcome S B
m >> k = m >>= λ _. k

abbrev pub pure : {S A : Type 0} → A → S → Outcome S A
pure a s = done a s

abbrev pub give_up : {S A : Type 0} → S → Outcome S A
give_up s = fails s

abbrev pub when_ok : {S A : Type 0} → Bool → (S → Outcome S A) → S → Outcome S A
when_ok true m = m
when_ok false m = give_up

-- the call, whose failure is a result
abbrev pub attempt : {S A : Type 0} → (S → Outcome S A) → S → Outcome S Bool
attempt m s = elim (m s) [ done a t ↦ done true t | fails t ↦ done false t | hangs ↦ hangs ]

-- a chain of calls, one call after the other
pub bind_done :
    {S A B : Type 0} (m : S → Outcome S A) (k : A → S → Outcome S B) (s : S) {a : A} {t : S}
    → m s ≡ done a t
    → (m >>= k) s ≡ k a t
bind_done m k s e = rw (e, ◌>>=◌) refl

pub bind_fails :
    {S A B : Type 0} (m : S → Outcome S A) (k : A → S → Outcome S B) (s : S) {t : S}
    → m s ≡ fails t
    → (m >>= k) s ≡ fails t
bind_fails m k s e = rw (e, ◌>>=◌) refl

pub attempt_done :
    {S A : Type 0} (m : S → Outcome S A) (s : S) {a : A} {t : S}
    → m s ≡ done a t
    → attempt m s ≡ done true t
attempt_done m s e = rw (e, attempt) refl

pub when_true :
    {S A : Type 0} (b : Bool) (m : S → Outcome S A) (s : S) → b ≡ true → when_ok b m s ≡ m s
when_true b m s e = rw (e, when_ok) refl

pub data Backend : Type 0 where
  nvme ahci ata : Backend

-- `read` and `write` move one sector; a read that fails may have changed the buffer.
pub record Disk (D : Type 0) : Type 0 where
  pub start : Backend → D → Status × D
  pub read : Backend → ℕ → Memory → D → Status × Memory × D
  pub write : Backend → ℕ → Memory → D → Status × D
  pub flush : D → D

-- The buffer `sector` is a memory of 512 bytes.
pub record Fat (D : Type 0) : Type 0 where
  pub part_lba : ℕ
  pub fat_start : ℕ
  pub data_start : ℕ
  pub root_cluster : ℕ
  pub bytes_per_sec : ℕ
  pub sec_per_cluster : ℕ
  pub num_fats : ℕ
  pub fat_size_sectors : ℕ
  pub total_clusters : ℕ
  pub mounted : Bool
  pub cwd_cluster : ℕ
  pub cwd_path : Memory
  pub use_nvme : Bool
  pub use_ahci : Bool
  pub sector : Memory
  pub disk : D

abbrev pub M : Type 0 → Type 0 → Type 0
M D A = Fat D → Outcome (Fat D) A

abbrev pub set_sector : {D : Type 0} → Memory → M D (Unit {0})
set_sector m f = done tt (record f { sector = m })

abbrev pub get_state : {D : Type 0} → M D (Fat D)
get_state f = done f f

unfoldable pub backend : {D : Type 0} → Fat D → Backend
backend f = if f.use_nvme then nvme else if f.use_ahci then ahci else ata

abbrev pub status_then : {D : Type 0} → Status → Fat D → Outcome (Fat D) (Unit {0})
status_then ok f = done tt f
status_then fail f = fails f

-- `cluster_to_lba`
unfoldable pub cluster_to_lba : {D : Type 0} → Fat D → ℕ → ℕ
cluster_to_lba f cl = (f.data_start + ((cl + 2 ^ 32 - 2) % 2 ^ 32 * f.sec_per_cluster)) % 2 ^ 32

module _ {D : Type 0} (k : Disk D) where
  -- into `sector`
  unfoldable pub read_abs : ℕ → M D (Unit {0})
  read_abs lba f =
      let r = k.read (backend f) lba f.sector f.disk in
      status_then r.0 (record f { sector = r.1; disk = r.2 })

  -- from `sector`
  unfoldable pub write_abs : ℕ → M D (Unit {0})
  write_abs lba f =
      let r = k.write (backend f) lba f.sector f.disk in status_then r.0 (record f { disk = r.1 })

  abbrev pub flush_disk : M D (Unit {0})
  flush_disk f = done tt (record f { disk = k.flush f.disk })

-- ===== src/Atomicfile/Install.antt =====
-- What core/atomicfile guarantees: at every moment the target is the old file or the new one.
use bacchus.Shared.{
  ℕ, [], Bool, Result, true, false, ◌≡◌, ◌≢◌, ◌⊎◌, some, none, Bytes, All, arith, ok, err,
}
use bacchus.Atomicfile.{
  File, Disk, World, Faults, Error, open_dir_failed, sync_dir_failed, write, sync_dir,
  write_durable,
}

-- The complete new file, flushed to the medium.
abbrev pub new_file : Bytes → ℕ → File
new_file b perm = record { content = b; mode = perm; flushed = true }

abbrev pub start : Disk → World
start d = record { disk = d; trace = [] }

-- At every moment of a write, and so after a crash at any moment, a reader finds the old file or
-- the complete, flushed new one with its mode, and the durable entry is untouched.
pub write_old_or_new :
    (f : Faults) (b : Bytes) (perm : ℕ) (d : Disk)
    → All
        (λ s.
          ((s.target ≡ d.target) ⊎ (s.target ≡ some (new_file b perm))) × (s.durable ≡ d.durable))
        (write f b perm (start d)).1.trace
unfolding write
write_old_or_new f b perm d = ground arith

-- A write that reports success has installed the new file, and one that reports an error has left
-- the target as it was.
pub write_outcome :
    (f : Faults) (b : Bytes) (perm : ℕ) (d : Disk)
    → let (r, w) = write f b perm (start d) in
      (r ≡ ok tt → w.disk.target ≡ some (new_file b perm))
      × ((e : Error) → r ≡ err e → w.disk.target ≡ d.target)
unfolding write
write_outcome f b perm d = (λ h. ground arith, λ e h. ground arith)

-- Durability, where directories can be flushed: after a durable write that reports success a power
-- loss brings back the new file; after one that reports an error other than the directory's, the
-- target and the durable entry are as they were.
pub write_durable_outcome :
    (f : Faults) (b : Bytes) (perm : ℕ) (d : Disk)
    → f.flushes_directories ≡ true
    → let (r, w) = write_durable f b perm (start d) in
      (r ≡ ok tt
        → (w.disk.target ≡ some (new_file b perm)) × (w.disk.durable ≡ some (new_file b perm)))
      × ((e : Error)
          → r ≡ err e
          → e ≢ open_dir_failed
          → e ≢ sync_dir_failed
          → (w.disk.target ≡ d.target) × (w.disk.durable ≡ d.durable))
unfolding write_durable write sync_dir
write_durable_outcome f b perm d flushes = (λ h. ground arith, λ e h n m. ground arith)

-- While the staged file is incomplete only its owner can open it, whatever mode is asked for.
pub write_staged_private :
    (f : Faults) (b : Bytes) (perm : ℕ) (d : Disk)
    → d.staged ≡ none
    → All
        (λ s.
          (x : File) → s.staged ≡ some x → (x.mode ≡ 0o600) ⊎ ((x.mode ≡ perm) × (x.content ≡ b)))
        (write f b perm (start d)).1.trace
unfolding write
write_staged_private f b perm d h = ground arith

-- `Write` or `WriteDurable`, as the callers that keep a rollback floor choose between them.
abbrev pub put : Bool → Faults → Bytes → ℕ → Disk → Result Error (Unit {0}) × World
put true f b perm d = write_durable f b perm (start d)
put false f b perm d = write f b perm (start d)

pub put_target :
    (durable : Bool) (f : Faults) (b : Bytes) (perm : ℕ) (d : Disk)
    → let (r, w) = put durable f b perm d in
      ((w.disk.target ≡ d.target) ⊎ (w.disk.target ≡ some (new_file b perm)))
      × (r ≡ ok tt → w.disk.target ≡ some (new_file b perm))
unfolding write_durable write sync_dir
put_target true f b perm d = (ground arith, λ h. ground arith)
put_target false f b perm d = (ground arith, λ h. ground arith)

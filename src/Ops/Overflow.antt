-- ===== src/Ops/Overflow.antt =====
-- The buffer of `unreliable_readlink` in unreliablefs/unreliablefs_ops.c.
use afs_cs.Base.{
  ℕ, suc, ◌≤◌, ◌<◌, ◌≡◌, refl, ap, pos, arith, none, List, [], ◌∷◌, ◌++◌, Str, length, ltb, true,
  set, drop,
}
use afs_cs.Base.Run.{Ensures, ensures}
use afs_cs.System.{Env, State}
use afs_cs.System.Kernel.{sys_readlink}
use afs_cs.System.Memory.{sys}
use afs_cs.Ops.{overwrite, negated_errno}
use afs_cs.Ops.Paths.{readlink_body, terminate}

pub length-overwrite : (buf bytes : List ℕ) → length (overwrite buf bytes) ≡ length buf
unfolding overwrite
length-overwrite buf [] = refl
length-overwrite [] (b ∷ bytes) = refl
length-overwrite (x ∷ buf) (b ∷ bytes) = ap suc (length-overwrite buf bytes)

set-overwrite :
    (buf bytes : List ℕ) (v : ℕ)
    → length bytes < length buf
    → set (overwrite buf bytes) (length bytes) v ≡ bytes ++ v ∷ drop (suc (length bytes)) buf
unfolding overwrite
set-overwrite [] bytes v h = elim h [ ]
set-overwrite (x ∷ buf) [] v h = refl
set-overwrite (x ∷ buf) (b ∷ bytes) v h = ap (λ l. b ∷ l) (set-overwrite buf bytes v (omega arith))

module _ (E : Env) (path : Str) (buf : List ℕ) (s : State E) where
  -- Where the kernel stores a link that is shorter than the buffer, the body of `readlink` returns
  -- 0, the buffer has the link with a zero byte behind it, and the rest of the buffer is as it was.
  pub readlink_terminated :
      (link : List ℕ)
      → (E.call (sys_readlink path (length buf)) s.world).0.value ≡ pos (length link)
      → (E.call (sys_readlink path (length buf)) s.world).0.stored ≡ link
      → length link < length buf
      → Ensures
          (λ (ret, buf') t.
            (ret ≡ pos 0)
            × (buf' ≡ link ++ 0 ∷ drop (suc (length link)) buf)
            × (t.world ≡ (E.call (sys_readlink path (length buf)) s.world).1))
          (readlink_body E path buf (length buf) s)
  unfolding readlink_body sys negated_errno terminate
  readlink_terminated link value stored short =
      let fits : ltb (length link) (length buf) ≡ true = ground arith in
      rw (value, stored, length-overwrite, fits)
        (ensures (refl, set-overwrite buf link 0 short, refl))

  -- Where the kernel's result is at least the size of the buffer, the body of `readlink` writes its
  -- zero byte outside of the buffer.
  pub readlink_overflow :
      (n : ℕ)
      → (E.call (sys_readlink path (length buf)) s.world).0.value ≡ pos n
      → length buf ≤ n
      → readlink_body E path buf (length buf) s ≡ none
  unfolding readlink_body sys negated_errno terminate
  readlink_overflow n value full = rw (value, length-overwrite) (ground arith)

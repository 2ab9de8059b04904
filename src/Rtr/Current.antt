-- ===== src/Rtr/Current.antt =====
-- rpki/rtr/generator.py: which set is current, and the files of the sets before it.
use rpki_net.Prelude.{
  ℕ, ◌+◌, ◌%◌, ◌^◌, ◌<◌, ◌≤◌, ◌≡◌, ◌≢◌, ◌↔◌, refl, Bool, true, ◌&&◌, not, [], ◌∷◌, arith, Option,
  none, some, ltb, ◌==◌, ◌⊎◌, if◌then◌else◌, Bool-cases, inl, inr,
}
use rpki_net.Result.{Result, ok, Returns, assertion_error, guard, ◌>>=◌, ◌>>◌}
use rpki_net.Rtr.Body.{eq_same}
use rpki_net.Rtr.Generator.{seq_ge}
use rpki_net.Rtr.Server.{Directory, FileName, ixfr_file, axfr_file, read_current, write_current}

-- `destroy_old_data` of the set with this serial number.
unfoldable pub destroy_old_data : ℕ → ℕ → Directory → Directory
destroy_old_data serial version dir = record dir {
  file = λ name. elim name [
    | ixfr_file s from v ↦ if v == version then none else dir.file (ixfr_file s from v)
    | axfr_file s v ↦ if v == version && not (s == serial) then none else dir.file (axfr_file s v)
  ];
}

-- `new_nonce`; `random` are the sixteen random bits.
unfoldable pub new_nonce : ℕ → Bool → ℕ
new_nonce random force_zero_nonce = if force_zero_nonce then 0 else random

-- What `mark_current` does when the current file says this.
unfoldable pub replace_current : ℕ → Bool → ℕ → ℕ → Option ℕ → Option ℕ → Directory → Directory
replace_current random force_zero_nonce serial version (some old_serial) (some nonce) dir =
    if seq_ge old_serial serial
    then write_current serial (new_nonce random force_zero_nonce) version
        (destroy_old_data serial version dir)
    else write_current serial nonce version dir
replace_current random force_zero_nonce serial version old_serial own dir =
    write_current serial (new_nonce random force_zero_nonce) version
      (destroy_old_data serial version dir)

-- `mark_current`; the versions are 0 and 1.
unfoldable pub mark_current : ℕ → Bool → ℕ → ℕ → Directory → Result Directory
mark_current random force_zero_nonce serial version dir = do
  guard (ltb version 2) assertion_error
  (old_serial, nonce) ← read_current dir (some version)
  ok (replace_current random force_zero_nonce serial version old_serial nonce dir)

-- Of the serial number that is `d` steps after `b`, both less than 2 ** 32, counting modulo 2 ** 32, and of `b`: the first is
-- at least the second just if `d` is less than 2 ** 31; the second is at least the first just if `d`
-- is 0 or more than 2 ** 31. At 2 ** 31 steps neither is.
pub seq_ge_steps :
    (b d : ℕ)
    → b < 2 ^ 32
    → d < 2 ^ 32
    → ((seq_ge ((b + d) % 2 ^ 32) b ≡ true) ↔ (d < 2 ^ 31))
      × ((seq_ge b ((b + d) % 2 ^ 32) ≡ true) ↔ ((d ≡ 0) ⊎ (2 ^ 31 < d)))
unfolding seq_ge
seq_ge_steps b d hb hd = (ground (arith, hb, hd), ground (arith, hb, hd))

-- What becomes of the files of a version when a set is made current with the serial number `d` steps
-- after the old one, whose nonce is `n`.
abbrev pub IsMarked : ℕ → ℕ → ℕ → ℕ → ℕ → Directory → Directory → Type 0
IsMarked serial version d n fresh dir dir' =
    (0 < d
      → d ≤ 2 ^ 31
      → (dir'.current version ≡ some (serial ∷ n ∷ []))
        × ((name : FileName) → dir'.file name ≡ dir.file name))
    × ((d ≡ 0) ⊎ (2 ^ 31 < d)
        → (dir'.current version ≡ some (serial ∷ fresh ∷ []))
          × ((s from : ℕ) → dir'.file (ixfr_file s from version) ≡ none)
          × ((s : ℕ) → s ≢ serial → dir'.file (axfr_file s version) ≡ none)
          × (dir'.file (axfr_file serial version) ≡ dir.file (axfr_file serial version)))
    × ((v : ℕ)
        → v ≢ version
        → (dir'.current v ≡ dir.current v)
          × ((s : ℕ) → dir'.file (axfr_file s v) ≡ dir.file (axfr_file s v))
          × ((s from : ℕ) → dir'.file (ixfr_file s from v) ≡ dir.file (ixfr_file s from v)))

-- A set whose serial number is `d` steps after the current one is made current.
pub mark_current-IsMarked :
    (random : ℕ) (force_zero_nonce : Bool) (version o n d : ℕ) (dir : Directory)
    → version < 2
    → o < 2 ^ 32
    → d < 2 ^ 32
    → dir.current version ≡ some (o ∷ n ∷ [])
    → Returns
        (mark_current random force_zero_nonce ((o + d) % 2 ^ 32) version dir)
        (IsMarked ((o + d) % 2 ^ 32) version d n (new_nonce random force_zero_nonce) dir)
unfolding mark_current read_current replace_current destroy_old_data
mark_current-IsMarked random force_zero_nonce version o n d dir hv ho hd current =
    let known : ltb version 2 ≡ true = ground (arith, hv) in
    let same = eq_same version in
    let serial = (o + d) % 2 ^ 32 in
    let own = eq_same serial in
    let steps = (seq_ge_steps o d ho hd).1 in
    elim (Bool-cases (seq_ge o serial)) [
      | inl ahead ↦
          rw (known, current, ahead)
            (
              (λ l h. absurd (ground (arith, steps.0 ahead, l, h))),
              (λ e. (
                rw same refl,
                (λ s from. rw same refl),
                (λ s x. ground (arith, x)),
                rw (same, own) refl,
              )),
              (λ v x. (ground (arith, x), (λ s. ground (arith, x)), (λ s from. ground (arith, x)))),
            )
      | inr behind ↦
          rw (known, current, behind)
            (
              (λ l h. (rw same refl, λ name. refl)),
              (λ e. absurd (ground (arith, steps.1 e, behind))),
              (λ v x. (ground (arith, x), (λ s. refl), (λ s from. refl))),
            )
    ]

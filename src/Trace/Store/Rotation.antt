-- ===== src/Trace/Store/Rotation.antt =====
-- What `rotate` does where no file of the store is a symbolic link: every generation moves up by one,
-- and the oldest is dropped.
use blindfold.Prelude.{
  ℕ, zero, suc, ◌-◌, ◌≤◌, ◌<◌, ◌≡◌, ◌≢◌, refl, sym, subst, ap, ◌∙◌, ◌⊎◌, inl, inr, arith,
}
use blindfold.Trace.Store.{
  missing, symlink, Files, Result, ok, continue, ◌>>=◌, ◌>>◌, reject_symlink, remove_file, rename,
  shift, must_move, move_active, rotate,
}
use blindfold.Trace.Store.Entries.{NoLinks, pass, Renamed, rename-Renamed, remove_file-Removed}

-- After the loop over `m` generations.
record Shifted (m : ℕ) (files : Files) (out : Files × Result Unit) : Type 0 where
  next : Files
  returned : out ≡ (next, ok tt)
  low : next 0 ≡ files 0
  gap : next 1 ≡ missing
  moved : (k : ℕ) → 0 < k → k ≤ m → next (suc k) ≡ files k
  high : (k : ℕ) → suc m < k → next k ≡ files k

Shifted-suc :
    (m : ℕ) (files : Files) (out : Files × Result Unit)
    → (r : Renamed (suc m) (suc (suc m)) files (rename (suc m) (suc (suc m)) files))
    → Shifted m r.next out
    → Shifted (suc m) files out
Shifted-suc m files out r s = record {
  next = s.next;
  returned = s.returned;
  low = s.low ∙ r.others 0 (omega arith) (omega arith);
  gap = s.gap;
  moved = λ k p q. elim (at_most k q) [
    | inl below ↦
        s.moved k p below ∙ r.others k (λ e. absurd (omega arith)) (λ e. absurd (omega arith))
    | inr top ↦
        subst (λ j. s.next (suc j) ≡ files j) (sym top)
          (s.high (suc (suc m)) (omega arith) ∙ r.destination)
  ];
  high = λ k p.
      s.high k (omega arith) ∙ r.others k (λ e. absurd (omega arith)) (λ e. absurd (omega arith));
}
  where
    at_most : (k : ℕ) → k ≤ suc m → (k ≤ m) ⊎ (k ≡ suc m)
    at_most k h = ground arith

NoLinks-Renamed :
    (m : ℕ) (files : Files)
    → (r : Renamed (suc m) (suc (suc m)) files (rename (suc m) (suc (suc m)) files))
    → NoLinks (suc (suc m)) files
    → NoLinks (suc m) r.next
NoLinks-Renamed m files r h g q = elim (split_last g q) [
  | inl below ↦
      subst (λ e. e ≢ symlink)
        (sym (r.others g (λ e. absurd (omega arith)) (λ e. absurd (omega arith))))
        (h g (omega arith))
  | inr top ↦ subst (λ j. r.next j ≢ symlink) (sym top) (λ e. cc (r.source, e))
]
  where
    split_last : (k : ℕ) → k ≤ suc m → (k ≤ m) ⊎ (k ≡ suc m)
    split_last k h = ground arith

shift-Shifted :
    (m : ℕ) (files : Files)
    → NoLinks (suc m) files
    → files (suc m) ≡ missing
    → Shifted m files (shift m files)
unfolding shift
shift-Shifted zero files h free = record {
  next = files;
  returned = refl;
  low = refl;
  gap = free;
  moved = λ k p q. absurd (omega arith);
  high = λ k p. refl;
}
shift-Shifted (suc m) files h free =
    let r =
      rename-Renamed (suc m) (suc (suc m)) files (omega arith) (h (suc m) (omega arith)) free in
    let s = shift-Shifted m r.next (NoLinks-Renamed m files r h) r.source in
    let first =
      pass (suc m) (reject_symlink (suc (suc m)) >> (rename (suc m) (suc (suc m)) >> shift m)) files
        (h (suc m) (omega arith)) in
    let second =
      pass (suc (suc m)) (rename (suc m) (suc (suc m)) >> shift m) files
        (h (suc (suc m)) (omega arith)) in
    let third = ap (continue (λ moved. shift m)) r.returned in
    subst (Shifted (suc m) files) (sym (first ∙ second ∙ third))
      (Shifted-suc m files (shift m r.next) r s)

-- The active file has become generation 1, and so on up to `n`; what was generation `n` is gone.
pub record Rotated (n : ℕ) (files : Files) (out : Files × Result Unit) : Type 0 where
  pub next : Files
  pub returned : out ≡ (next, ok tt)
  pub active : next 0 ≡ missing
  pub moved : (k : ℕ) → k < n → next (suc k) ≡ files k
  pub high : (k : ℕ) → n < k → next k ≡ files k

move_active-Renamed :
    (files : Files)
    → files 0 ≢ symlink
    → files 0 ≢ missing
    → files 1 ≡ missing
    → (r : Renamed 0 1 files (rename 0 1 files)) × (move_active files ≡ (r.next, ok tt))
unfolding move_active
move_active-Renamed files s there free =
    let r = rename-Renamed 0 1 files (omega arith) s free in
    (
      r,
      pass 0 (reject_symlink 1 >> (rename 0 1 >>= must_move)) files s
          ∙ pass 1 (rename 0 1 >>= must_move) files (λ e. cc (e, free))
          ∙ ap (continue must_move) r.returned
          ∙ ap (λ b. must_move b r.next) (r.is_moved there),
    )

next_or_last : (k m : ℕ) → k < suc m → (k ≡ 0) ⊎ ((0 < k) × (k ≤ m))
next_or_last k m h = ground arith

-- If no file up to generation `n` is a symbolic link and there is an active file, rotation succeeds:
-- every generation below `n` moves up by one, the active file is missing, what was in generation `n`
-- is gone, and higher generations are untouched.
pub rotate-Rotated :
    (m : ℕ) (files : Files)
    → NoLinks (suc m) files
    → files 0 ≢ missing
    → Rotated (suc m) files (rotate (suc m) files)
unfolding rotate
rotate-Rotated m files h there =
    let x = remove_file-Removed (suc m) files (h (suc m) (omega arith)) in
    let clean : NoLinks (suc m) x.next = λ g q. elim (at_top g q) [
      | inl below ↦ λ e. h g q (sym (x.others g (λ t. absurd (omega arith))) ∙ e)
      | inr top ↦ λ e. cc (x.free, ap x.next top, e)
    ] in
    let s = shift-Shifted m x.next clean x.free in
    let low : s.next 0 ≡ files 0 = s.low ∙ x.others 0 (omega arith) in
    let (r, last) =
      move_active-Renamed s.next (λ e. h 0 (omega arith) (sym low ∙ e)) (λ e. there (sym low ∙ e))
        s.gap in
    let before : suc m - 1 ≡ m = omega arith in
    let zeroth =
      ap (λ i. (reject_symlink (suc m) >> (remove_file (suc m) >> (shift i >> move_active))) files)
        before in
    let first =
      pass (suc m) (remove_file (suc m) >> (shift m >> move_active)) files
        (h (suc m) (omega arith)) in
    let second = ap (continue (λ gone. shift m >> move_active)) x.returned in
    let third = ap (continue (λ u. move_active)) s.returned in
    record {
      next = r.next;
      returned = zeroth ∙ first ∙ second ∙ third ∙ last;
      active = r.source;
      moved = λ k p. elim (next_or_last k m p) [
        | inl e ↦ subst (λ j. r.next (suc j) ≡ files j) (sym e) (r.destination ∙ low)
        | inr b ↦
            r.others (suc k) (omega arith) (λ e. absurd (omega (arith, b.0)))
            ∙ s.moved k b.0 b.1
            ∙ x.others k (λ e. absurd (omega (arith, b.1)))
      ];
      high = λ k p.
          r.others k (λ e. absurd (omega arith)) (λ e. absurd (omega arith))
          ∙ s.high k p
          ∙ x.others k (λ e. absurd (omega arith));
    }
  where
    at_top : (k : ℕ) → k ≤ suc m → (k < suc m) ⊎ (k ≡ suc m)
    at_top k q = ground arith

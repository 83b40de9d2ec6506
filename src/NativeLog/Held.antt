-- ===== src/NativeLog/Held.antt =====
-- About rotatingLogWriter of internal/runtime/native.go: how much the two files hold, and what.
use cash_pilot_desktop.Base.{
  ℕ, zero, suc, ◌+◌, ◌≤◌, ℤ, pos_part, is_positive, Bool, true, false, Option, none, List, [], ◌∷◌,
  ◌≡◌, refl, sym, Text, length, length-append, take, true_not_false, ◌&&◌, All, arith,
  if◌then◌else◌,
}
use cash_pilot_desktop.NativeLog.{
  Answers, Log, new_log, Wrote, contents, is_over, failed, open_current, opened_file, rotate,
  append, write_open, write_opened, write,
}

-- Both files are within the bound, and the size is that of the open file.
pub record Fits (bound : ℕ) (w : Log) : Type 0 where
  pub limited : is_positive w.cap ≡ true
  pub cap_le : pos_part w.cap ≤ bound
  pub sized : w.is_open ≡ true → w.size ≡ length (contents w.current)
  pub current_le : length (contents w.current) ≤ bound
  pub rotated_le : length (contents w.rotated) ≤ bound

length-take : (n : ℕ) (s : Text) → length (take n s) ≤ length s
length-take zero s = omega arith
length-take (suc n) [] = omega arith
length-take (suc n) (c ∷ s) = omega (arith, length-take n s)

pub if_either {ℓ κ} :
    {A : Type ℓ} (P : A → Type κ) (b : Bool) (x y : A)
    → (b ≡ true → P x)
    → (b ≡ false → P y)
    → P (if b then x else y)
if_either P true x y f g = f refl
if_either P false x y f g = g refl

-- What holds of each way through one write.
pub write_either {κ} :
    (P : Log × Wrote → Type κ) (os : Answers) (p : Text) (w : Log)
    → P (w, failed)
    → (w.is_open ≡ true → P (write_open os p w))
    → P (write_open os p (opened_file os w))
    → P (write os p w)
unfolding write open_current
write_either P os p w f g h =
    let Q : Option Log → Type _ = λ o. P (write_opened os p w o) in
    if_either P w.closed _ _ (λ _. f)
      (λ _.
        if_either Q w.is_open _ _ g
          (λ _. if_either Q (os.dir_made && os.opened) _ _ (λ _. h) (λ _. f)))

pub write_open_either {κ} :
    (P : Log × Wrote → Type κ) (os : Answers) (p : Text) (w : Log)
    → (os.reopened ≡ true → P (append os p (rotate os w)))
    → P (rotate os w, failed)
    → (is_over p w ≡ false → P (append os p w))
    → P (write_open os p w)
unfolding write_open
write_open_either P os p w f g h =
    if_either P (is_over p w) _ _ (λ _. if_either P os.reopened _ _ f (λ _. g)) h

rotate-emptied :
    (os : Answers) (w : Log)
    → os.reopened ≡ true
    → ((rotate os w).is_open ≡ true) × ((rotate os w).size ≡ 0)
unfolding rotate
rotate-emptied os w r = rw r (refl, refl)

module _ (bound : ℕ) where
  append-Fits :
      (os : Answers) (p : Text) (w : Log)
      → Fits bound w
      → w.is_open ≡ true
      → w.size + length p ≤ bound
      → Fits bound (append os p w).0
  unfolding append
  append-Fits os p w f o h = record {
    limited = f.limited;
    cap_le = f.cap_le;
    sized = λ _. omega (arith, f.sized o, length-append (contents w.current) (take os.taken p));
    current_le = omega (
      arith,
      f.sized o,
      length-take os.taken p,
      length-append (contents w.current) (take os.taken p),
    );
    rotated_le = f.rotated_le;
  }

  opened_file-Fits :
      (os : Answers) (w : Log) → os.stated ≡ true → Fits bound w → Fits bound (opened_file os w)
  opened_file-Fits os w st f = record {
    limited = f.limited;
    cap_le = f.cap_le;
    sized = λ _. rw st refl;
    current_le = f.current_le;
    rotated_le = f.rotated_le;
  }

  rotate-Fits : (os : Answers) (w : Log) → Fits bound w → Fits bound (rotate os w)
  unfolding rotate
  rotate-Fits os w f =
      let kept =
        if_either (λ file. length (contents file) ≤ bound) os.renamed w.current w.rotated
          (λ _. f.current_le) (λ _. f.rotated_le) in
      if_either (Fits bound) os.reopened _ _
        (λ _. record {
          limited = f.limited;
          cap_le = f.cap_le;
          sized = λ _. refl;
          current_le = omega arith;
          rotated_le = kept;
        })
        (λ _. record {
          limited = f.limited;
          cap_le = f.cap_le;
          sized = λ e. elim (true_not_false (sym e)) [ ];
          current_le =
              if_either (λ file. length (contents file) ≤ bound) os.renamed none w.current
                (λ _. omega arith) (λ _. f.current_le);
          rotated_le = kept;
        })

  write_open-Fits :
      (os : Answers) (p : Text) (w : Log)
      → length p ≤ bound
      → Fits bound w
      → w.is_open ≡ true
      → Fits bound (write_open os p w).0
  write_open-Fits os p w h f o =
      let turned = rotate-Fits os w f in
      write_open_either (λ r. Fits bound r.0) os p w
        (λ r.
          let e = rotate-emptied os w r in
          append-Fits os p (rotate os w) turned e.0 (omega (arith, e.1, h)))
        turned (λ n. append-Fits os p w f o (ground (arith, n, f.limited, f.cap_le)))

  write-Fits :
      (os : Answers) (p : Text) (w : Log)
      → os.stated ≡ true
      → length p ≤ bound
      → Fits bound w
      → Fits bound (write os p w).0
  write-Fits os p w st h f =
      write_either (λ r. Fits bound r.0) os p w f (write_open-Fits os p w h f)
        (write_open-Fits os p (opened_file os w) h (opened_file-Fits os w st f) refl)

abbrev pub write_all : List (Answers × Text) → Log → Log
write_all [] w = w
write_all (turn ∷ turns) w = write_all turns (write turn.0 turn.1 w).0

write_all-Fits :
    (bound : ℕ) (turns : List (Answers × Text)) (w : Log)
    → All (λ turn. (turn.0.stated ≡ true) × (length turn.1 ≤ bound)) turns
    → Fits bound w
    → Fits bound (write_all turns w)
write_all-Fits bound [] w h f = f
write_all-Fits bound (turn ∷ turns) w h f =
    write_all-Fits bound turns (write turn.0 turn.1 w).0 h.1
      (write-Fits bound turn.0 turn.1 w h.0.0 h.0.1 f)

-- Where the cap is positive, neither the current file nor the rotated one ever passes a bound that
-- the cap, each single write and the files at the start are within. Any call of a write may fail,
-- but the one that reads the size of a file that is opened.
pub write_all-bounded :
    (cap : ℤ) (current rotated : Option Text) (bound : ℕ) (turns : List (Answers × Text))
    → is_positive cap ≡ true
    → pos_part cap ≤ bound
    → length (contents current) ≤ bound
    → length (contents rotated) ≤ bound
    → All (λ turn. (turn.0.stated ≡ true) × (length turn.1 ≤ bound)) turns
    → let w = write_all turns (new_log cap current rotated) in
      (length (contents w.current) ≤ bound) × (length (contents w.rotated) ≤ bound)
write_all-bounded cap current rotated bound turns c b hc hr h =
    let fits = write_all-Fits bound turns (new_log cap current rotated) h (record {
      limited = c;
      cap_le = b;
      sized = λ e. elim (true_not_false (sym e)) [ ];
      current_le = hc;
      rotated_le = hr;
    }) in
    (fits.current_le, fits.rotated_le)

-- ===== src/Latency/Order.antt =====
-- The report of include/latency_stats.h as a function of the bag of the samples: their order is
-- forgotten.
use mathlib.Core.Logic.{∥∥₁_elim}
use mathlib.Core.List.{Perm, Permᴰ}
use mathlib.Core.List.Permᴰ
use mathlib.Core.Quot
use mathlib.Core.Quot.{Quot, Quot-set}
use c_web_socket_client_with.Prelude.{
  ℕ, ◌≡◌, sym, ◌↔◌, Option, le_cases, inl, inr, le→leb, gt→leb, refl, ap, ap₂, ◌∙◌, List, [], ◌∷◌,
  arith,
}
use c_web_socket_client_with.Latency.{LatencyStats, Report, insert, sort, figures, report}

insert_twice : (x y : ℕ) (zs : List ℕ) → insert x (insert y zs) ≡ insert y (insert x zs)
unfolding insert
insert_twice x y [] = ground arith
insert_twice x y (z ∷ zs) = ground (arith, insert_twice x y zs)

sort-Permᴰ : {xs ys : List ℕ} → Permᴰ xs ys → sort xs ≡ sort ys
unfolding sort
sort-Permᴰ Permᴰ.nil = refl
sort-Permᴰ (Permᴰ.cons e p) = ap₂ insert e (sort-Permᴰ p)
sort-Permᴰ (Permᴰ.swap {l = l} e f) =
    insert_twice _ _ (sort l) ∙ ap₂ (λ x y. insert x (insert y (sort l))) f e
sort-Permᴰ (Permᴰ.trans p q) = sort-Permᴰ p ∙ sort-Permᴰ q

sort-Perm : (xs ys : List ℕ) → Perm xs ys → sort xs ≡ sort ys
sort-Perm xs ys p = ∥∥₁_elim p (hlevel) sort-Permᴰ

insert-Permᴰ : (x : ℕ) (ys : List ℕ) → Permᴰ (insert x ys) (x ∷ ys)
unfolding insert
insert-Permᴰ x [] = Permᴰ.cons refl Permᴰ.nil
insert-Permᴰ x (y ∷ ys) = elim (le_cases x y) [
  | inl le ↦ rw (le→leb x y le) (Permᴰ.refl (x ∷ y ∷ ys))
  | inr gt ↦
      rw (gt→leb x y gt) (Permᴰ.trans (Permᴰ.cons refl (insert-Permᴰ x ys)) (Permᴰ.swap refl refl))
]

sorted-Permᴰ : (xs : List ℕ) → Permᴰ xs (sort xs)
unfolding sort
sorted-Permᴰ [] = Permᴰ.nil
sorted-Permᴰ (x ∷ xs) =
    Permᴰ.trans (Permᴰ.cons refl (sorted-Permᴰ xs)) (Permᴰ.symm (insert-Permᴰ x (sort xs)))

pub report-Perm : (xs ys : LatencyStats) → Perm xs ys → report xs ≡ report ys
unfolding report
report-Perm xs ys p = ap figures (sort-Perm xs ys p)

-- Samples whose order is forgotten.
abbrev pub Bag : Type 0
Bag = Quot {α = LatencyStats} (λ xs ys. Perm xs ys)

abbrev pub bag_of : LatencyStats → Bag
bag_of s = Quot.mk s

sorted : Bag → List ℕ
sorted = Quot.lift (hlevel) sort sort-Perm

unfoldable pub report_of : Bag → Option Report
report_of = Quot.lift (hlevel) report report-Perm

bag_of-sort : (s : LatencyStats) → bag_of s ≡ bag_of (sort s)
bag_of-sort s = Quot.sound ∣ sorted-Permᴰ s ∣₁

-- The report is a function of the bag of the samples, in whatever order they were recorded; and the
-- array that it sorts stands for that bag: two lists of samples are sorted to the same array exactly
-- if they are the same bag.
pub sort_iff :
    (xs ys : LatencyStats)
    → (report xs ≡ report_of (bag_of xs)) × ((sort xs ≡ sort ys) ↔ (bag_of xs ≡ bag_of ys))
unfolding sorted report_of
sort_iff xs ys =
    (refl, (λ e. bag_of-sort xs ∙ ap bag_of e ∙ sym (bag_of-sort ys), λ e. ap sorted e))

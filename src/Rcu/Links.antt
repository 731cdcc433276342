-- ===== src/Rcu/Links.antt =====
-- A list whose entries that were taken out keep their links: it meets the interface. The head is 0.
use lkb.Common.{
  ℕ, ◌≡◌, ◌≢◌, refl, List, [], ◌∷◌, Bool, true, false, not, ◌&&◌, ◌==◌, if◌then◌else◌, has, erase,
  has-erase_other, arith,
}
use lkb.Kernel.RcuList.{RcuList, Chain, replace}

abbrev pub fits : List ℕ → Bool
fits [] = true
fits (x ∷ xs) = not (x == 0) && (not (has x xs) && fits xs)

pub record Links : Type 0 where
  pub listed : List ℕ
  pub fit : fits listed ≡ true
  -- The link of an entry that is not in the list.
  pub stale : ℕ → ℕ

abbrev pub front : List ℕ → ℕ
front [] = 0
front (x ∷ xs) = x

abbrev pub after : List ℕ → ℕ → ℕ
after [] n = 0
after (x ∷ xs) n = if x == n then front xs else after xs n

abbrev pub link : Links → ℕ → ℕ
link s n = if has n s.listed then after s.listed n else s.stale n

abbrev pub relink_as : (xs : List ℕ) (b : Bool) → fits xs ≡ b → Links → Links
relink_as xs true e s = record { listed = xs; fit = e; stale = link s }
relink_as xs false e s = s

abbrev pub relink : List ℕ → Links → Links
relink xs s = relink_as xs (fits xs) refl s

relink_as-listed :
    (xs : List ℕ) (b : Bool) (e : fits xs ≡ b) (s : Links)
    → b ≡ true
    → (relink_as xs b e s).listed ≡ xs
relink_as-listed xs true e s h = refl
relink_as-listed xs false e s h = cc

pub relink-listed : (xs : List ℕ) (s : Links) → fits xs ≡ true → (relink xs s).listed ≡ xs
relink-listed xs s h = relink_as-listed xs (fits xs) refl s h

relink_as-link :
    (xs : List ℕ) (b : Bool) (e : fits xs ≡ b) (s : Links) (n : ℕ)
    → has n xs ≡ false
    → link (relink_as xs b e s) n ≡ link s n
relink_as-link xs true e s n h = rw h refl
relink_as-link xs false e s n h = refl

pub relink-link :
    (xs : List ℕ) (s : Links) (n : ℕ) → has n xs ≡ false → link (relink xs s) n ≡ link s n
relink-link xs s n h = relink_as-link xs (fits xs) refl s n h

Chain-of :
    (f : ℕ → ℕ) (xs : List ℕ)
    → fits xs ≡ true
    → ((n : ℕ) → has n xs ≡ true → f n ≡ after xs n)
    → Chain f 0 (front xs) xs
Chain-of f [] h k = refl
Chain-of f (x ∷ xs) h k =
    let start : f x ≡ front xs = ground (arith, k x) in
    (refl, ground arith, rw start (Chain-of f xs (ground arith) (λ n i. ground (arith, k n))))

pub chained_lem : (s : Links) → Chain (link s) 0 (front s.listed) s.listed
chained_lem s = Chain-of (link s) s.listed s.fit (λ n h. rw h refl)

pub has-replace : (old new : ℕ) (xs : List ℕ) → new ≢ old → has old (replace old new xs) ≡ false
has-replace old new [] ne = refl
has-replace old new (x ∷ xs) ne = ground (arith, has-replace old new xs)

has-replace_other :
    (x old new : ℕ) (xs : List ℕ) → x ≢ new → has x xs ≡ false → has x (replace old new xs) ≡ false
has-replace_other x old new [] ne h = refl
has-replace_other x old new (y ∷ xs) ne h = ground (arith, has-replace_other x old new xs)

has-replace_new :
    (old new : ℕ) (xs : List ℕ)
    → has old xs ≡ false
    → has new xs ≡ false
    → has new (replace old new xs) ≡ false
has-replace_new old new [] h k = refl
has-replace_new old new (y ∷ xs) h k = ground (arith, has-replace_new old new xs)

pub fits-replace :
    (old new : ℕ) (xs : List ℕ)
    → new ≢ 0
    → has new xs ≡ false
    → fits xs ≡ true
    → fits (replace old new xs) ≡ true
fits-replace old new [] ne h k = refl
fits-replace old new (x ∷ xs) ne h k =
    ground
      (arith, fits-replace old new xs, has-replace_other x old new xs, has-replace_new old new xs)

pub has-erase : (n : ℕ) (xs : List ℕ) → fits xs ≡ true → has n (erase n xs) ≡ false
has-erase n [] h = refl
has-erase n (x ∷ xs) h = ground (arith, has-erase n xs)

pub fits-erase : (n : ℕ) (xs : List ℕ) → fits xs ≡ true → fits (erase n xs) ≡ true
fits-erase n [] h = refl
fits-erase n (x ∷ xs) h = ground (arith, fits-erase n xs, has-erase_other x n xs)

pub fits_cons :
    (n : ℕ) (xs : List ℕ) → n ≢ 0 → has n xs ≡ false → fits xs ≡ true → fits (n ∷ xs) ≡ true
fits_cons n xs ne h k = ground arith

abbrev pub links : RcuList
links = record {
  Store = Links;
  head = 0;
  first = λ s. front s.listed;
  next = link;
  entries = λ s. s.listed;
  list_add_rcu = λ n s. relink (n ∷ s.listed) s;
  list_replace_rcu = λ old new s. relink (replace old new s.listed) s;
  list_del_rcu = λ n s. relink (erase n s.listed) s;
  chained = chained_lem;
  entries-add = λ n s ne out. relink-listed (n ∷ s.listed) s (fits_cons n s.listed ne out s.fit);
  entries-replace = λ old new s ne apart here out.
      relink-listed (replace old new s.listed) s (fits-replace old new s.listed ne out s.fit);
  entries-del = λ n s apart here. relink-listed (erase n s.listed) s (fits-erase n s.listed s.fit);
  next-replace = λ old new s ne.
      relink-link (replace old new s.listed) s old (has-replace old new s.listed ne);
  next-del = λ n s. relink-link (erase n s.listed) s n (has-erase n s.listed s.fit);
}

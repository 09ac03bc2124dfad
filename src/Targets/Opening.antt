-- ===== src/Targets/Opening.antt =====
-- `local::augeas`: the tree of this system's files, over the functions of libaugeas.
use libral.Base.{String, List, [], ◌∷◌, Result, ok, err, throws, ◌≡◌, arith, Exec, bind, bind-ok}
use libral.Augeas.Tree.{Library, Tree, include, load, check_error}

module _ {A : Type 0} (lib : Library A) where
  -- the loop over `xfms`
  unfoldable pub include_all : List (String × String) → Exec (Tree A) (Unit {0})
  include_all [] t = (ok tt, t)
  include_all ((lens, glob) ∷ xfms) t = bind (include lib lens glob) (λ _. include_all xfms) t

  unfoldable pub included : List (String × String) → Exec (Tree A) (Unit {0})
  included xfms t = bind (include_all xfms) (λ _. load lib) t

  -- What `augeas(xfms)` makes of the handle: it is given only if all went well.
  abbrev pub given : Result (Unit {0}) × Tree A → Result (Tree A)
  given (ok _, t) = ok t
  given (err e, t) = err e
  given (throws x, t) = throws x

  -- `augeas(xfms)`, where `opened` is the handle that `handle::make()` makes
  unfoldable pub open_tree : Tree A → List (String × String) → Result (Tree A)
  open_tree opened xfms = given (included xfms opened)

  -- The handle of libaugeas with every lens on its files, in order.
  abbrev pub with_lenses : List (String × String) → A → A
  with_lenses [] a = a
  with_lenses ((lens, glob) ∷ xfms) a = with_lenses xfms (lib.transform lens glob a)

  -- No lens leaves an error.
  abbrev pub IsClean : List (String × String) → A → Type 0
  IsClean [] a = Unit
  IsClean ((lens, glob) ∷ xfms) a =
      let a' = lib.transform lens glob a in (check_error lib a' ≡ ok tt) × IsClean xfms a'

  -- What is loaded.
  abbrev pub loaded : Tree A → List (String × String) → Tree A
  loaded t xfms = record t { aug = lib.reader (with_lenses xfms t.aug) }

  given-ok : (r : Result (Unit {0}) × Tree A) (t : Tree A) → given r ≡ ok t → r ≡ (ok tt, t)
  given-ok (ok _, t') t h = ground arith
  given-ok (err e, t') t h = cc
  given-ok (throws x, t') t h = cc

  -- Including lenses that leave no error sets them on their files; one that leaves an error ends it.
  include_all-with_lenses :
      (xfms : List (String × String)) (t t' : Tree A)
      → include_all xfms t ≡ (ok tt, t')
      → IsClean xfms t.aug × (t' ≡ record t { aug = with_lenses xfms t.aug })
  unfolding include_all include
  include_all-with_lenses [] t t' h = (tt, ground arith)
  include_all-with_lenses ((lens, glob) ∷ xfms) t t' h =
      let (_, clean, rest) = bind-ok (include lib lens glob) (λ _. include_all xfms) t t' h in
      let (others, same) = include_all-with_lenses xfms _ t' rest in ((clean, others), same)

  load-ok :
      (s s' t : Tree A)
      → s ≡ s'
      → load lib s ≡ (ok tt, t)
      → (check_error lib (lib.reader s'.aug) ≡ ok tt) × (t ≡ record s' { aug = lib.reader s'.aug })
  unfolding load
  load-ok s s' t same h = ground arith

  -- Whatever lenses are set on files: where the tree can be opened, no lens leaves an error, each in
  -- its turn, loading the files leaves none either, and what is opened is the tree that was loaded
  -- with all the lenses.
  open_tree-loaded :
      (xfms : List (String × String)) (opened t : Tree A)
      → open_tree opened xfms ≡ ok t
      → IsClean xfms opened.aug
        × (check_error lib (loaded opened xfms).aug ≡ ok tt)
        × (t ≡ loaded opened xfms)
  unfolding open_tree included load
  open_tree-loaded xfms opened t h =
      let (_, all_in, last) =
        bind-ok (include_all xfms) (λ _. load lib) opened t (given-ok (included xfms opened) t h) in
      let (clean, same) =
        include_all-with_lenses xfms opened (include_all xfms opened).1 (ground arith) in
      let (fine, read) = load-ok _ _ t same last in (clean, fine, read)

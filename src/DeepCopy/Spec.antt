-- ===== src/DeepCopy/Spec.antt =====
-- DeepCopyInto of a MigrationSpec: its texts are copied into an array of their own.
use checkpoint_operator.Base.{
  ◌+◌, ◌≤◌, ◌<◌, ◌≡◌, refl, sym, ap, ◌∙◌, List, [], ◌∷◌, ◌++◌, Option, none, some, Bytes, length,
  length-append, take, arith,
}
use checkpoint_operator.DeepCopy.{
  MigrationSpec, Array, texts, Memory, text_array, texts_of, make, copy_texts, deep_copy_specify,
  deep_copy_spec_into,
}
use checkpoint_operator.DeepCopy.Memory.{
  Slice, Same, at, repeat, overwrite, window, at-append_below, at-append_self, put-append_self,
  take-all, length-repeat, length-window, overwrite-all,
}
use checkpoint_operator.DeepCopy.Laws.{IsReadable, IsDeepCopy}

module _ {M : Type 0} where
  -- The slice lies within an array of texts.
  pub record IsWithin (m : Memory M) (s : Slice) : Type 0 where
    pub in_memory : s.array < length m
    pub in_array : s.start + s.len ≤ length (text_array (at s.array m))

  abbrev pub AreLive : Memory M → Option Slice → Type 0
  AreLive m none = Unit
  AreLive m (some s) = IsWithin m s

  -- What the list of pods shows; a nil slice stays apart from an empty one.
  abbrev pub shown_texts : Memory M → Option Slice → Option (List Bytes)
  shown_texts m none = none
  shown_texts m (some s) = some (texts_of m s)

  abbrev pub IsLiveSpec : Memory M → MigrationSpec Slice → Type 0
  IsLiveSpec m spec = AreLive m spec.specify

  abbrev pub shown_spec : Memory M → MigrationSpec Slice → MigrationSpec (List Bytes)
  shown_spec m spec = record {
    pod_name = spec.pod_name;
    deployment = spec.deployment;
    namespace = spec.namespace;
    destination_node = spec.destination_node;
    destination_namespace = spec.destination_namespace;
    specify = shown_texts m spec.specify;
  }

  texts_of-Same :
      (m g : Memory M) (s : Slice) → at s.array g ≡ at s.array m → texts_of g s ≡ texts_of m s
  unfolding texts_of
  texts_of-Same m g s e = ap (λ a. window s (text_array a)) e

  take-texts_of :
      (m : Memory M) (s : Slice) → IsWithin m s → take s.len (texts_of m s) ≡ texts_of m s
  unfolding texts_of
  take-texts_of m s live =
      ap (λ n. take n (window s (text_array (at s.array m))))
        (sym (length-window s (text_array (at s.array m)) live.in_array))
      ∙ take-all (window s (text_array (at s.array m)))

  length-texts_of : (m : Memory M) (s : Slice) → IsWithin m s → length (texts_of m s) ≡ s.len
  unfolding texts_of
  length-texts_of m s live = length-window s (text_array (at s.array m)) live.in_array

  abbrev copied_memory : Memory M → Slice → Memory M
  copied_memory m s = m ++ texts (texts_of m s) ∷ []

  -- What `copy` writes into a fresh array of the length of the slice.
  written-eq :
      (m : Memory M) (s : Slice) (xs : List Bytes)
      → IsWithin m s
      → length xs ≡ s.len
      → overwrite 0
          (take s.len (texts_of (m ++ texts xs ∷ []) s))
          (text_array (at (length m) (m ++ texts xs ∷ [])))
        ≡ texts_of m s
  written-eq m s xs live e =
      rw
        (
          at-append_self m (texts xs) [],
          texts_of-Same m (m ++ texts xs ∷ []) s
              (at-append_below s.array m (texts xs ∷ []) live.in_memory),
          take-texts_of m s live,
        )
        (overwrite-all (texts_of m s) xs (length-texts_of m s live ∙ sym e))

  deep_copy_specify-eq :
      (m : Memory M) (s : Slice)
      → IsWithin m s
      → (deep_copy_specify (some s) m).1 ≡ copied_memory m s
  unfolding deep_copy_specify make copy_texts
  deep_copy_specify-eq m s live =
      put-append_self m _ (texts (repeat s.len [])) []
      ∙ ap (λ ys. m ++ texts ys ∷ [])
          (written-eq m s (repeat s.len []) live (length-repeat s.len []))

  -- An array added at the end leaves the others and comes after them.
  pub Same-append : (m : Memory M) (a : Array M) → Same 0 (length m) (m ++ a ∷ []) m
  Same-append m a = λ i lo hi. at-append_below i m (a ∷ []) hi

  shown_copy :
      (m g : Memory M) (s : Slice)
      → IsWithin m s
      → at (length m) g ≡ some (texts (texts_of m s))
      → texts_of g (record { array = length m; start = 0; len = s.len }) ≡ texts_of m s
  unfolding texts_of
  shown_copy m g s live e = ap (λ a. take s.len (text_array a)) e ∙ take-texts_of m s live

  pub shown_texts-IsReadable : IsReadable shown_texts AreLive
  shown_texts-IsReadable = record { shows = shows; stays = stays }
    where
      shows :
          (m g : Memory M) (x : Option Slice)
          → AreLive m x
          → Same 0 (length m) g m
          → shown_texts g x ≡ shown_texts m x
      shows m g none live same = refl
      shows m g (some s) live same =
          ap some (texts_of-Same m g s (same s.array (omega arith) live.in_memory))

      stays :
          (m g : Memory M) (x : Option Slice)
          → AreLive m x
          → Same 0 (length m) g m
          → length m ≤ length g
          → AreLive g x
      stays m g none live same longer = tt
      stays m g (some s) live same longer = record {
        in_memory = omega (arith, live.in_memory);
        in_array = rw (same s.array (omega arith) live.in_memory) live.in_array;
      }

  length-copied : (m : Memory M) (s : Slice) → length (copied_memory m s) ≡ length m + 1
  length-copied m s = length-append m (texts (texts_of m s) ∷ [])

  specify_grows :
      (x : Option Slice) (m : Memory M) → AreLive m x → length m ≤ length (deep_copy_specify x m).1
  unfolding deep_copy_specify
  specify_grows none m live = omega arith
  specify_grows (some s) m live =
      rw (deep_copy_specify-eq m s live) (omega (arith, length-copied m s))

  specify_keeps :
      (x : Option Slice) (m : Memory M)
      → AreLive m x
      → Same 0 (length m) (deep_copy_specify x m).1 m
  unfolding deep_copy_specify
  specify_keeps none m live = λ a lo hi. refl
  specify_keeps (some s) m live =
      λ a lo hi. ap (at a) (deep_copy_specify-eq m s live) ∙ Same-append m _ a lo hi

  specify_copies :
      (x : Option Slice) (m g : Memory M)
      → AreLive m x
      → Same (length m) (length (deep_copy_specify x m).1) g (deep_copy_specify x m).1
      → shown_texts g (deep_copy_specify x m).0 ≡ shown_texts m x
  unfolding deep_copy_specify make
  specify_copies none m g live same = refl
  specify_copies (some s) m g live same =
      let e = deep_copy_specify-eq m s live in
      ap some (
        shown_copy m g s live (
          same (length m) (omega arith) (rw e (omega (arith, length-copied m s)))
          ∙ ap (at (length m)) e
          ∙ at-append_self m _ []))

  pub deep_copy_specify-IsDeepCopy : IsDeepCopy shown_texts AreLive deep_copy_specify
  deep_copy_specify-IsDeepCopy = record {
    grows = specify_grows;
    keeps = specify_keeps;
    copies = specify_copies;
  }

  pub deep_copy_spec_into-IsDeepCopy : IsDeepCopy shown_spec IsLiveSpec deep_copy_spec_into
  unfolding deep_copy_spec_into
  deep_copy_spec_into-IsDeepCopy = record {
    grows = λ x. deep_copy_specify-IsDeepCopy.grows x.specify;
    keeps = λ x. deep_copy_specify-IsDeepCopy.keeps x.specify;
    copies = λ x m g live same.
        ap (λ ts. record (shown_spec m x) { specify = ts })
          (deep_copy_specify-IsDeepCopy.copies x.specify m g live same);
  }

  pub shown_spec-IsReadable : IsReadable shown_spec IsLiveSpec
  shown_spec-IsReadable = record {
    shows = λ m g x live same.
        ap (λ ts. record (shown_spec m x) { specify = ts })
          (shown_texts-IsReadable.shows m g x.specify live same);
    stays = λ m g x. shown_texts-IsReadable.stays m g x.specify;
  }

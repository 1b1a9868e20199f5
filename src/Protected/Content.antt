-- ===== src/Protected/Content.antt =====
-- protected_file.py: the reads behind the bytes that the loop of reads gives.
use mt.Base.{
  ℕ, zero, suc, ◌≤◌, String, Bool, true, false, ◌≡◌, refl, sym, ◌∙◌, ap, subst, Option, none, some,
  List, [], ◌∷◌, ◌++◌, length, eqb, ltb, ltb-false, arith,
}
use mathlib.Core.List.{append_assoc}
use mt.System.{Sys, M, pure, raise, outside, ◌>>=◌}
use mt.System.Rules.{
  Hoare, Post, returned, raised, Any, Hoare-bind, Hoare-pure, Hoare-refuse, Hoare-post,
}
use mt.Protected.{Disk, Checks, or_os_error, guarded, read_chunk, more, read_loop}

-- Reads of the descriptor, one behind the other from the world `w`: their chunks in order, down to
-- the empty one that ends the file.
pub data IsContent {W : Type 0} (d : Disk W) : W → List ℕ → Type 0 where
  ended : {w : W} (n : ℕ) → (d.read_bytes n w).0 ≡ some [] → IsContent d w []
  chunk :
      {w : W} (n : ℕ) (l rest : List ℕ)
      → (d.read_bytes n w).0 ≡ some l
      → IsContent d (d.read_bytes n w).1 rest
      → IsContent d w (l ++ rest)

module _ {W : Type 0} (d : Disk W) (label : String) (checks : Checks) where
  -- The world as the call finds it.
  abbrev From : W → Sys W → Type 0
  From w s = s.world ≡ w

  guarded-From :
      {A : Type 0} (f : W → Option A × W) (w : W)
      → Hoare Any
          (From w)
          (guarded d label checks f)
          (λ a s. ((f w).0 ≡ some a) × (s.world ≡ (f w).1))
  unfolding guarded or_os_error outside raise pure ◌>>=◌
  guarded-From {A = A} f w = record {
    at = λ s i p.
        subst
          (λ v.
            Post Any (λ a t. ((f v).0 ≡ some a) × (t.world ≡ (f v).1)) (guarded d label checks f s))
          p (answered s (f s.world).0 refl);
  }
    where
      answered :
          (s : Sys W) (o : Option A)
          → (f s.world).0 ≡ o
          → Post Any
              (λ a t. ((f s.world).0 ≡ some a) × (t.world ≡ (f s.world).1))
              (or_os_error d label checks o (record s { world = (f s.world).1 }))
      answered s none e = raised tt
      answered s (some a) e = returned tt (e, refl)

  module _ (maximum : ℕ) (too_large : String) where
    -- What one read has added to the payload.
    record IsRound (w : W) (payload : List ℕ) (r : List ℕ × Bool) (s : Sys W) : Type 0 where
      count : ℕ
      bytes : List ℕ
      answered : (d.read_bytes count w).0 ≡ some bytes
      world : s.world ≡ (d.read_bytes count w).1
      payload_grows : r.0 ≡ payload ++ bytes
      last : r.1 ≡ eqb (length bytes) 0
      fits : length r.0 ≤ maximum

    chunk-IsRound :
        (payload : List ℕ) (w : W)
        → Hoare Any
            (From w)
            (read_chunk d label checks maximum too_large payload)
            (IsRound w payload)
    unfolding read_chunk
    chunk-IsRound payload w = Hoare-bind (guarded-From _ w) λ bytes.
        Hoare-refuse (ltb maximum (length (payload ++ bytes))) _ _ λ small. Hoare-pure _ λ s q.
          record {
            count = _;
            bytes = bytes;
            answered = q.0;
            world = q.1;
            payload_grows = refl;
            last = refl;
            fits = ltb-false _ _ small;
          }

    -- What the loop adds to the payload, when it ends within its fuel.
    record IsRest (w : W) (payload bytes : List ℕ) : Type 0 where
      rest : List ℕ
      whole : bytes ≡ payload ++ rest
      content : IsContent d w rest
      fits : length bytes ≤ maximum

    abbrev Grown : W → List ℕ → Option (List ℕ) → Sys W → Type 0
    Grown w payload o s = (bytes : List ℕ) → o ≡ some bytes → IsRest w payload bytes

    nothing : (l : List ℕ) → eqb (length l) 0 ≡ true → l ≡ []
    nothing [] e = refl
    nothing (n ∷ l) e = ground arith

    last-IsRest :
        (w : W) (payload : List ℕ) (r : List ℕ × Bool) (s : Sys W)
        → r.1 ≡ true
        → IsRound w payload r s
        → IsRest w payload r.0
    last-IsRest w payload r s e q =
        let empty = nothing q.bytes (sym q.last ∙ e) in
        record {
          rest = [];
          whole = q.payload_grows ∙ ap (λ l. payload ++ l) empty;
          content = ended q.count (q.answered ∙ ap some empty);
          fits = q.fits;
        }

    next-IsRest :
        (w : W) (payload : List ℕ) (r : List ℕ × Bool) (s : Sys W) (bytes : List ℕ)
        (q : IsRound w payload r s)
        → IsRest (d.read_bytes q.count w).1 r.0 bytes
        → IsRest w payload bytes
    next-IsRest w payload r s bytes q n = record {
      rest = q.bytes ++ n.rest;
      whole = n.whole ∙ ap (λ l. l ++ n.rest) q.payload_grows ∙ append_assoc payload q.bytes n.rest;
      content = chunk q.count q.bytes n.rest q.answered n.content;
      fits = n.fits;
    }

    more-Grown :
        (again : List ℕ → M W (Option (List ℕ))) (w : W) (payload : List ℕ)
        → ((v : W) (next : List ℕ) → Hoare Any (From v) (again next) (Grown v next))
        → (r : List ℕ × Bool)
        → Hoare Any
            (IsRound w payload r)
            (more d label checks maximum too_large again r)
            (Grown w payload)
    more-Grown again w payload k (read, true) =
        Hoare-pure _
          λ s q bytes e. subst (IsRest w payload) (cc) (last-IsRest w payload (read, true) s refl q)
    more-Grown again w payload k (read, false) = record {
      at = λ s i q.
          (Hoare-post
              (λ o t grown bytes e. next-IsRest w payload (read, false) s bytes q (grown bytes e))
              (k (d.read_bytes q.count w).1 read)).at
            s i q.world;
    }

    loop-Grown :
        (fuel : ℕ) (w : W) (payload : List ℕ)
        → Hoare Any
            (From w)
            (read_loop d label checks maximum too_large fuel payload)
            (Grown w payload)
    unfolding read_loop
    loop-Grown zero w payload = Hoare-pure none λ s i bytes e. cc
    loop-Grown (suc fuel) w payload =
        Hoare-bind (chunk-IsRound payload w) (more-Grown _ w payload (loop-Grown fuel))

    -- The bytes that the loop gives, from wherever it starts.
    pub record IsWhole (bytes : List ℕ) : Type 0 where
      pub first : W
      pub content : IsContent d first bytes
      pub fits : length bytes ≤ maximum

    pub loop-IsWhole :
        (fuel : ℕ)
        → Hoare Any Any
            (read_loop d label checks maximum too_large fuel [])
            (λ o s. (bytes : List ℕ) → o ≡ some bytes → IsWhole bytes)
    loop-IsWhole fuel = record {
      at = λ s i p.
          (Hoare-post
              (λ o t grown bytes e.
                let g = grown bytes e in
                record {
                  first = s.world;
                  content = subst (IsContent d s.world) (sym g.whole) g.content;
                  fits = g.fits;
                })
              (loop-Grown fuel s.world [])).at
            s i refl;
    }

-- ===== src/Acl/Render.antt =====
-- A grant that is written by `to_spec` is read back by `parse_grants`.
use sightingdb.Acl.{Grant, admin_grant, ok}
use sightingdb.Acl.Syntax.{
  parse_clause, parse_clauses, parse_grants, quoted, render_grants, to_spec,
}
use sightingdb.Common.{
  All, All-append, Bool, List, Option, [], ap, arith, eqb, false, keep, leb, map, not, refl, some,
  true, ℕ, ◌&&◌, ◌++◌, ◌||◌, ◌∙◌, ◌∷◌, ◌≡◌,
}
use sightingdb.Order.{Text}
use sightingdb.Reader.{read}
use sightingdb.Text.{is_empty, is_whitespace, join, trim, trim_end, trim_matches}
use sightingdb.Text.Split.{split-join_spaced}
use sightingdb.Text.Trim.{
  Lacks, trim_end_cons, trim_matches-trim_end, trim_matches_cons, trim_start_cons,
}

abbrev pub data_grant : Text → Bool → Bool → Grant
data_grant prefix read write = record { prefix = prefix; read = read; write = write; admin = false }

-- A character that stands for itself in a basic string of TOML.
abbrev pub is_plain : ℕ → Bool
is_plain c = leb 0x20 c && not (eqb c 0x22) && not (eqb c b'\\') && not (eqb c 0x7F)

abbrev pub IsPlain : Text → Type 0
IsPlain = All (λ c. is_plain c ≡ true)

-- The grants that the file can express: the admin grant, or a reading or writing grant on a namespace
-- with no comma, quote, backslash or control character in it and no white space around it.
pub data IsRenderable : Grant → Type 0 where
  the_admin : IsRenderable admin_grant
  on_data :
      (prefix : Text) (read write : Bool)
      → (read || write) ≡ true
      → trim prefix ≡ prefix
      → Lacks b',' prefix
      → IsPlain prefix
      → IsRenderable (data_grant prefix read write)

-- `spec` is one clause of the syntax, and says `g`.
record Says (g : Grant) (spec : Text) : Type 0 where
  written : is_empty spec ≡ false
  kept : is_empty (trim spec) ≡ false
  read_back : parse_clause (trim spec) ≡ ok g
  one_clause : Lacks b',' spec
  plain : IsPlain spec

trimmed_prefix : (s : Text) → trim s ≡ s → trim (trim_end is_whitespace s) ≡ s
unfolding trim
trimmed_prefix s h = trim_matches-trim_end is_whitespace s ∙ h

module _ (s : Text) where
  trim_rw : trim (b'r' ∷ b'w' ∷ b':' ∷ s) ≡ b'r' ∷ b'w' ∷ b':' ∷ trim_end is_whitespace s
  unfolding trim trim_matches
  trim_rw =
      rw
        (
          trim_end_cons is_whitespace b'r' (b'w' ∷ b':' ∷ s) refl,
          trim_end_cons is_whitespace b'w' (b':' ∷ s) refl,
          trim_end_cons is_whitespace b':' s refl,
        )
        (trim_start_cons is_whitespace b'r' _ refl)

  trim_r : trim (b'r' ∷ b':' ∷ s) ≡ b'r' ∷ b':' ∷ trim_end is_whitespace s
  unfolding trim trim_matches
  trim_r =
      rw (trim_end_cons is_whitespace b'r' (b':' ∷ s) refl, trim_end_cons is_whitespace b':' s refl)
        (trim_start_cons is_whitespace b'r' _ refl)

  trim_w : trim (b'w' ∷ b':' ∷ s) ≡ b'w' ∷ b':' ∷ trim_end is_whitespace s
  unfolding trim trim_matches
  trim_w =
      rw (trim_end_cons is_whitespace b'w' (b':' ∷ s) refl, trim_end_cons is_whitespace b':' s refl)
        (trim_start_cons is_whitespace b'w' _ refl)

  module _ (t : trim s ≡ s) (l : Lacks b',' s) (p : IsPlain s) where
    Says-rw : Says (data_grant s true true) (b'r' ∷ b'w' ∷ b':' ∷ s)
    unfolding parse_clause
    Says-rw = record {
      written = refl;
      kept = rw trim_rw;
      read_back = rw (trim_rw, trimmed_prefix s t);
      one_clause = (refl, (refl, (refl, l)));
      plain = (refl, (refl, (refl, p)));
    }

    Says-r : Says (data_grant s true false) (b'r' ∷ b':' ∷ s)
    unfolding parse_clause
    Says-r = record {
      written = refl;
      kept = rw trim_r;
      read_back = rw (trim_r, trimmed_prefix s t);
      one_clause = (refl, (refl, l));
      plain = (refl, (refl, p));
    }

    Says-w : Says (data_grant s false true) (b'w' ∷ b':' ∷ s)
    unfolding parse_clause
    Says-w = record {
      written = refl;
      kept = rw trim_w;
      read_back = rw (trim_w, trimmed_prefix s t);
      one_clause = (refl, (refl, l));
      plain = (refl, (refl, p));
    }

to_spec-Says : {g : Grant} → IsRenderable g → Says g (to_spec g)
unfolding to_spec trim parse_clause admin_grant
to_spec-Says the_admin = record {
  written = refl;
  kept = refl;
  read_back = refl;
  one_clause = (refl, (refl, (refl, (refl, (refl, tt)))));
  plain = (refl, (refl, (refl, (refl, (refl, tt)))));
}
to_spec-Says (on_data [] true true e t l p) = record {
  written = refl;
  kept = refl;
  read_back = refl;
  one_clause = (refl, (refl, tt));
  plain = (refl, (refl, tt));
}
to_spec-Says (on_data [] true false e t l p) = record {
  written = refl;
  kept = refl;
  read_back = refl;
  one_clause = (refl, tt);
  plain = (refl, tt);
}
to_spec-Says (on_data [] false true e t l p) = record {
  written = refl;
  kept = refl;
  read_back = refl;
  one_clause = (refl, tt);
  plain = (refl, tt);
}
to_spec-Says (on_data (c ∷ s) true true e t l p) = Says-rw (c ∷ s) t l p
to_spec-Says (on_data (c ∷ s) true false e t l p) = Says-r (c ∷ s) t l p
to_spec-Says (on_data (c ∷ s) false true e t l p) = Says-w (c ∷ s) t l p
to_spec-Says (on_data prefix false false e t l p) = absurd (ground arith)

-- The clauses as `split(',')` finds them: a space stands in front of each but the first.
abbrev spaced : List Grant → List Text
spaced gs = map (λ t. 32 ∷ t) (map to_spec gs)

trim_spaced : (s : Text) → trim (32 ∷ s) ≡ trim s
unfolding trim
trim_spaced s = trim_matches_cons is_whitespace 32 s refl

parse_spaced : (gs : List Grant) → All IsRenderable gs → parse_clauses (spaced gs) ≡ ok gs
unfolding parse_clauses
parse_spaced [] h = refl
parse_spaced (g ∷ gs) h =
    let says = to_spec-Says h.0 in
    rw (trim_spaced (to_spec g), says.kept, says.read_back, parse_spaced gs h.1)

specs_kept :
    (gs : List Grant)
    → All IsRenderable gs
    → keep (λ s. not (is_empty s)) (map to_spec gs) ≡ map to_spec gs
specs_kept [] h = refl
specs_kept (g ∷ gs) h = rw (to_spec-Says h.0).written (ap (◌∷◌ (to_spec g)) (specs_kept gs h.1))

specs_lack : (gs : List Grant) → All IsRenderable gs → All (Lacks b',') (map to_spec gs)
specs_lack [] h = tt
specs_lack (g ∷ gs) h = ((to_spec-Says h.0).one_clause, specs_lack gs h.1)

join-IsPlain :
    (s : Text) (ss : List Text) → All IsPlain (s ∷ ss) → IsPlain (join (b',' ∷ 32 ∷ []) (s ∷ ss))
unfolding join
join-IsPlain s [] h = h.0
join-IsPlain s (t ∷ ss) h =
    All-append (λ c. is_plain c ≡ true) s (b',' ∷ 32 ∷ join (b',' ∷ 32 ∷ []) (t ∷ ss)) h.0
      (refl, (refl, join-IsPlain t ss h.1))

specs-IsPlain : (gs : List Grant) → All IsRenderable gs → All IsPlain (map to_spec gs)
specs-IsPlain [] h = tt
specs-IsPlain (g ∷ gs) h = ((to_spec-Says h.0).plain, specs-IsPlain gs h.1)

module _ (g : Grant) (gs : List Grant) (h : All IsRenderable (g ∷ gs)) where
  parse_rendered : parse_grants (render_grants (g ∷ gs)) ≡ ok (g ∷ gs)
  unfolding parse_grants render_grants
  parse_rendered =
      let says = to_spec-Says h.0 in
      rw (
        specs_kept (g ∷ gs) h,
        split-join_spaced b',' (to_spec g) (map to_spec gs) refl (specs_lack (g ∷ gs) h),
        says.kept,
        says.read_back,
        parse_spaced gs h.1,
      )

  rendered-IsPlain : IsPlain (render_grants (g ∷ gs))
  unfolding render_grants
  rendered-IsPlain =
      rw (specs_kept (g ∷ gs) h)
        (join-IsPlain (to_spec g) (map to_spec gs) (specs-IsPlain (g ∷ gs) h))

-- For a reader of TOML strings that reads a text of plain characters between quotes as that text: grants that
-- the file can express, written as the management interface writes them for a key, quotes included, are
-- read back as the same grants in the same order.
pub parse_grants-render_grants :
    (read_string : Text → Option Text)
    → ((s : Text) → IsPlain s → read_string (0x22 ∷ (s ++ (0x22 ∷ []))) ≡ some s)
    → (g : Grant) (gs : List Grant) → All IsRenderable (g ∷ gs)
    → (spec : Text) × (read_string (quoted (render_grants (g ∷ gs))) ≡ some spec)
      × (parse_grants spec ≡ ok (g ∷ gs))
parse_grants-render_grants read_string reads g gs h = (
  render_grants (g ∷ gs),
  reads (render_grants (g ∷ gs)) (rendered-IsPlain g gs h),
  parse_rendered g gs h,
)

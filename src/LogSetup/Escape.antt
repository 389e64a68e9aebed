-- ===== src/LogSetup/Escape.antt =====
-- A reader of the lines that src/floodgate/log_setup.py writes, and how it reads an escaped value:
-- as one word, whatever the value.
use floodgate.Common.{
  ℕ, Bool, true, false, not, ◌&&◌, ◌||◌, List, [], ◌∷◌, ◌++◌, ◌≡◌, ◌≤◌, refl, ap, arith, All,
  All-append, eqb, leb, if◌then◌else◌, Bool-cases, inl, inr,
}
use floodgate.LogSetup.{Text, Python, IsPlain, is_bare, is_empty, escape_char, escape_chars, escape}

-- Outside quotes, inside them, and inside behind a backslash.
pub data Mode : Type 0 where
  outside inside escaped : Mode

abbrev next : Mode → ℕ → Mode
next outside c = if eqb c 34 then inside else outside
next inside c = if eqb c 34 then outside else if eqb c 92 then escaped else inside
next escaped c = inside

abbrev breaks : Mode → ℕ → Bool
breaks outside c = eqb c 32
breaks _ c = false

abbrev add : Bool → ℕ → Text × List Text → Text × List Text
add true c (w, ws) = ([], w ∷ ws)
add false c (w, ws) = (c ∷ w, ws)

-- The first word of a line and the words after it: a space outside quotes ends a word.
unfoldable pub read_words : Mode → Text → Text × List Text
read_words m [] = ([], [])
read_words m (c ∷ t) = add (breaks m c) c (read_words (next m c) t)

-- A piece of a word, that the reader enters and leaves in these modes.
unfoldable pub Walks : Mode → Text → Mode → Type 0
Walks m [] k = m ≡ k
Walks m (c ∷ t) k = (breaks m c ≡ false) × Walks (next m c) t k

abbrev pub onto : Text → Text × List Text → Text × List Text
onto t (w, ws) = (t ++ w, ws)

pub read_words-Walks :
    (m k : Mode) (t r : Text) → Walks m t k → read_words m (t ++ r) ≡ onto t (read_words k r)
unfolding read_words Walks
read_words-Walks m k [] r h = ap (λ i. read_words i r) h
read_words-Walks m k (c ∷ t) r (b, h) = rw (b, read_words-Walks (next m c) k t r h)

pub Walks-++ : (m k l : Mode) (t u : Text) → Walks m t k → Walks k u l → Walks m (t ++ u) l
unfolding Walks
Walks-++ m k l [] u h g = rw h g
Walks-++ m k l (c ∷ t) u (b, h) g = (b, Walks-++ (next m c) k l t u h g)

-- A text of printable ASCII characters without spaces and quotes.
unfoldable pub is_simple : Text → Bool
is_simple [] = true
is_simple (c ∷ t) = leb 33 c && leb c 126 && not (eqb c 34) && is_simple t

pub is_simple-Walks : (t : Text) → is_simple t ≡ true → Walks outside t outside
unfolding is_simple Walks
is_simple-Walks [] h = refl
is_simple-Walks (c ∷ t) h =
    let quote : eqb c 34 ≡ false = ground (arith, h) in
    (ground (arith, h), rw quote (is_simple-Walks t (ground (arith, h))))

module _ (python : Python) where
  abbrev pub IsPrintable : Text → Type 0
  IsPrintable t = All (λ c. python.is_printable c ≡ true) t

  pub is_simple-IsPrintable : (t : Text) → is_simple t ≡ true → IsPrintable t
  unfolding is_simple
  is_simple-IsPrintable [] h = tt
  is_simple-IsPrintable (c ∷ t) h = (
    python.ascii c (ground (arith, h)) (ground (arith, h)),
    is_simple-IsPrintable t (ground (arith, h)),
  )

  bare-Walks : (t : Text) → is_bare python t ≡ true → Walks outside t outside
  unfolding is_bare Walks
  bare-Walks [] h = refl
  bare-Walks (c ∷ t) h =
      let quote : eqb c 34 ≡ false = ground (arith, h) in
      (ground (arith, h), rw quote (bare-Walks t (ground (arith, h))))

  bare-IsPrintable : (t : Text) → is_bare python t ≡ true → IsPrintable t
  unfolding is_bare
  bare-IsPrintable [] h = tt
  bare-IsPrintable (c ∷ t) h = (ground (arith, h), bare-IsPrintable t (ground (arith, h)))

  plain-Walks : (t : Text) → All IsPlain t → Walks inside t inside
  unfolding Walks
  plain-Walks [] h = refl
  plain-Walks (c ∷ t) ((low, high, slash, equals), h) =
      let quote : eqb c 34 ≡ false = ground arith in
      let backslash : eqb c 92 ≡ false = ground arith in
      (refl, rw (quote, backslash) (plain-Walks t h))

  plain-IsPrintable : (t : Text) → All IsPlain t → IsPrintable t
  plain-IsPrintable [] h = tt
  plain-IsPrintable (c ∷ t) ((low, high, slash, equals), h) =
      (python.ascii c (omega arith) (omega arith), plain-IsPrintable t h)

  escape_char-Walks : (c : ℕ) → Walks inside (escape_char python c) inside
  unfolding escape_char Walks
  escape_char-Walks c = elim (Bool-cases (eqb c 34 || eqb c 92)) [
    | inl e ↦ rw e (refl, (refl, refl))
    | inr e ↦ elim (Bool-cases (python.is_printable c)) [
      | inl p ↦
          let quote : eqb c 34 ≡ false = ground (arith, e) in
          let backslash : eqb c 92 ≡ false = ground (arith, e) in
          rw (e, p, quote, backslash) (refl, refl)
      | inr p ↦
          let (r, l, d) = python.escapes c p in
          rw (e, p, r) (refl, (refl, plain-Walks (python.digits c) d))
    ]
  ]

  escape_char-IsPrintable : (c : ℕ) → IsPrintable (escape_char python c)
  unfolding escape_char
  escape_char-IsPrintable c = elim (Bool-cases (eqb c 34 || eqb c 92)) [
    | inl e ↦
        let low : 32 ≤ c = ground (arith, e) in
        let high : c ≤ 126 = ground (arith, e) in
        rw e (python.ascii 92 (omega arith) (omega arith), (python.ascii c low high, tt))
    | inr e ↦ elim (Bool-cases (python.is_printable c)) [
      | inl p ↦ rw (e, p) (p, tt)
      | inr p ↦
          let (r, l, d) = python.escapes c p in
          rw (e, p, r)
            (
              python.ascii 92 (omega arith) (omega arith),
              plain-IsPrintable (python.letter c ∷ python.digits c) (l, d),
            )
    ]
  ]

  escape_chars-Walks : (t : Text) → Walks inside (escape_chars python t) inside
  unfolding escape_chars Walks
  escape_chars-Walks [] = refl
  escape_chars-Walks (c ∷ t) =
      Walks-++ inside inside inside (escape_char python c) (escape_chars python t)
        (escape_char-Walks c) (escape_chars-Walks t)

  escape_chars-IsPrintable : (t : Text) → IsPrintable (escape_chars python t)
  unfolding escape_chars
  escape_chars-IsPrintable [] = tt
  escape_chars-IsPrintable (c ∷ t) =
      All-append _ (escape_char python c) (escape_chars python t) (escape_char-IsPrintable c)
        (escape_chars-IsPrintable t)

  quoted-Walks : (t : Text) → Walks outside (34 ∷ escape_chars python t ++ 34 ∷ []) outside
  unfolding Walks
  quoted-Walks t = (
    refl,
    Walks-++ inside inside outside (escape_chars python t) (34 ∷ []) (escape_chars-Walks t)
        (refl, refl),
  )

  quoted-IsPrintable : (t : Text) → IsPrintable (34 ∷ escape_chars python t ++ 34 ∷ [])
  quoted-IsPrintable t =
      let quote = python.ascii 34 (omega arith) (omega arith) in
      (
        quote,
        All-append _ (escape_chars python t) (34 ∷ []) (escape_chars-IsPrintable t) (quote, tt),
      )

  pub escape-Walks : (t : Text) → Walks outside (escape python t) outside
  unfolding escape
  escape-Walks t = elim (Bool-cases (not (is_empty t) && is_bare python t)) [
    | inl e ↦ rw e (bare-Walks t (ground (arith, e)))
    | inr e ↦ rw e (quoted-Walks t)
  ]

  pub escape-IsPrintable : (t : Text) → IsPrintable (escape python t)
  unfolding escape
  escape-IsPrintable t = elim (Bool-cases (not (is_empty t) && is_bare python t)) [
    | inl e ↦ rw e (bare-IsPrintable t (ground (arith, e)))
    | inr e ↦ rw e (quoted-IsPrintable t)
  ]

  -- An escaped value has printable characters only, no line break among them, and whatever follows
  -- it on a line, the reader takes exactly the value for a piece of the word that it stands in.
  read_words-escape :
      (t rest : Text)
      → All (λ c. python.is_printable c ≡ true) (escape python t)
        × (read_words outside (escape python t ++ rest)
            ≡ onto (escape python t) (read_words outside rest))
  read_words-escape t rest = (
    escape-IsPrintable t,
    read_words-Walks outside outside (escape python t) rest (escape-Walks t),
  )

-- ===== src/Cache/Lines.antt =====
-- What the lines of the cache of memory/cache.c hold.
use my_operating_system_open.Prelude.{
  ℕ, refl, sym, ap, inl, inr, Bool, true, false, Option, none, some, arith, ◌+◌, ◌*◌, ◌^◌, ◌<◌, ◌≡◌,
  ◌∙◌, ◌≢◌, ◌⊎◌, ◌&&◌, ◌==◌, if◌then◌else◌, eq→==, ==→eq, Bool-cases, if_true, if_false, update,
}
use my_operating_system_open.Cache.{
  CacheLine, Cache, cache_parse_address, written, fetched, cache_access,
}

abbrev pub tag_of : ℕ → ℕ
tag_of a = (cache_parse_address a).0

abbrev pub index_of : ℕ → ℕ
index_of a = (cache_parse_address a).1

abbrev pub offset_of : ℕ → ℕ
offset_of a = (cache_parse_address a).2

-- The three parts of an address are in their ranges, and give it back.
pub cache_parse_address-parts :
    (a : ℕ)
    → a < 2 ^ 32
    → (tag_of a < 2 ^ 19)
      × (index_of a < 2 ^ 8)
      × (offset_of a < 2 ^ 5)
      × (tag_of a * 2 ^ 13 + index_of a * 2 ^ 5 + offset_of a ≡ a)
unfolding cache_parse_address
cache_parse_address-parts a h = omega arith

-- The block of an address is in its line.
abbrev pub resident : Cache → ℕ → Bool
resident c a = (c.lines (index_of a)).valid && (c.lines (index_of a)).tag == tag_of a

-- The byte of the line of an address.
abbrev pub byte_at : Cache → ℕ → ℕ
byte_at c a = (c.lines (index_of a)).bytes (offset_of a)

==_sym : (m n : ℕ) → (m == n) ≡ (n == m)
==_sym m n = ground arith

written-same :
    (l : CacheLine) (o : ℕ) (byte : Option ℕ) (w : Bool)
    → ((written l o byte w).valid ≡ l.valid) × ((written l o byte w).tag ≡ l.tag)
unfolding written
written-same l o none w = (refl, refl)
written-same l o (some b) true = (refl, refl)
written-same l o (some b) false = (refl, refl)

written-other :
    (l : CacheLine) (o : ℕ) (byte : Option ℕ) (w : Bool) (j : ℕ)
    → (j ≡ o → w ≡ false)
    → (written l o byte w).bytes j ≡ l.bytes j
unfolding written
written-other l o none w j h = refl
written-other l o (some b) false j h = refl
written-other l o (some b) true j h = elim (Bool-cases (j == o)) [
  | inl e ↦ absurd (cc (h (==→eq j o e)))
  | inr e ↦ if_false e _ _
]

-- What an access makes of the line of its address.
line_after : Cache → ℕ → Option ℕ → Bool → CacheLine
line_after c a byte w =
    let line = c.lines (index_of a) in
    written (if resident c a then line else record line { valid = true; tag = tag_of a })
      (offset_of a) byte w

cache_access-lines :
    (c : Cache) (a : ℕ) (byte : Option ℕ) (w : Bool)
    → (cache_access c a byte w).2.lines ≡ update c.lines (index_of a) (line_after c a byte w)
unfolding cache_access line_after
cache_access-lines c a byte w = elim (Bool-cases (resident c a)) [
  | inl e ↦ rw e refl
  | inr e ↦ rw e refl
]

cache_access-hit :
    (c : Cache) (a : ℕ) (byte : Option ℕ) (w : Bool)
    → ((cache_access c a byte w).0 ≡ resident c a)
      × ((cache_access c a byte w).1 ≡ fetched byte w (if resident c a then byte_at c a else 0))
unfolding cache_access
cache_access-hit c a byte w = elim (Bool-cases (resident c a)) [
  | inl e ↦ rw e (refl, refl)
  | inr e ↦ rw e (refl, refl)
]

line_after-valid :
    (c : Cache) (a : ℕ) (byte : Option ℕ) (w : Bool)
    → ((line_after c a byte w).valid ≡ true) × ((line_after c a byte w).tag ≡ tag_of a)
unfolding line_after
line_after-valid c a byte w = elim (Bool-cases (resident c a)) [
  | inl e ↦ rw e (
      let (v, t) = written-same (c.lines (index_of a)) (offset_of a) byte w in
      (ground (arith, v, e), ground (arith, t, e)))
  | inr e ↦ rw e (
      written-same (record (c.lines (index_of a)) { valid = true; tag = tag_of a }) (offset_of a)
        byte w)
]

pub cache_access-looked_up :
    (c : Cache) (a : ℕ) (byte : Option ℕ) (w : Bool) (b : ℕ)
    → let (hit, _, c') = cache_access c a byte w in
      (hit ≡ resident c a)
      × (resident c' b ≡ (if index_of b == index_of a then tag_of b == tag_of a else resident c b))
cache_access-looked_up c a byte w b = (
  (cache_access-hit c a byte w).0,
  (let (v, t) = line_after-valid c a byte w in
      rw (cache_access-lines c a byte w) (elim (Bool-cases (index_of b == index_of a)) [
        | inl e ↦ rw (e, v, t) (==_sym (tag_of a) (tag_of b))
        | inr e ↦ rw e refl
      ])),
)

-- The block of `a` is in the cache, with the byte `v` at `a`.
pub record Holds (c : Cache) (a v : ℕ) : Type 0 where
  pub in_line : resident c a ≡ true
  pub byte : byte_at c a ≡ v

access-resident :
    (c : Cache) (a x : ℕ) (byte : Option ℕ) (w : Bool)
    → (index_of a == index_of x) ≡ true
    → tag_of a ≡ tag_of x
    → resident (cache_access c x byte w).2 a ≡ true
access-resident c a x byte w i t =
    (cache_access-looked_up c x byte w a).1 ∙ if_true i _ _ ∙ eq→== _ _ t

access-byte :
    (c : Cache) (a x : ℕ) (byte : Option ℕ) (w : Bool)
    → (index_of a == index_of x) ≡ true
    → byte_at (cache_access c x byte w).2 a ≡ (line_after c x byte w).bytes (offset_of a)
access-byte c a x byte w i =
    ap (λ (ls : ℕ → CacheLine). (ls (index_of a)).bytes (offset_of a))
      (cache_access-lines c x byte w)
    ∙ ap (λ (l : CacheLine). l.bytes (offset_of a)) (if_true i _ _)

resident-same :
    (c : Cache) (a x : ℕ)
    → index_of x ≡ index_of a
    → tag_of a ≡ tag_of x
    → resident c a ≡ true
    → resident c x ≡ true
resident-same c a x i t h = rw (i, ← t) h

same_address :
    (a x : ℕ) → index_of x ≡ index_of a → tag_of a ≡ tag_of x → offset_of a ≡ offset_of x → a ≡ x
unfolding cache_parse_address
same_address a x i t o = omega arith

-- A write leaves its byte in the cache.
pub write-Holds : (c : Cache) (a v : ℕ) → Holds (cache_access c a (some v) true).2 a v
unfolding line_after written
write-Holds c a v = record {
  in_line = access-resident c a a (some v) true (eq→== _ _ refl) refl;
  byte =
      access-byte c a a (some v) true (eq→== _ _ refl) ∙ if_true (eq→== (offset_of a) _ refl) _ _;
}

-- An access keeps a byte if it is about another line, or about the same block and no write to it.
pub access-Holds :
    (c : Cache) (a v x : ℕ) (byte : Option ℕ) (w : Bool)
    → (index_of a ≢ index_of x) ⊎ ((tag_of a ≡ tag_of x) × (a ≡ x → w ≡ false))
    → Holds c a v
    → Holds (cache_access c x byte w).2 a v
unfolding line_after
access-Holds c a v x byte w safe h = elim (Bool-cases (index_of a == index_of x)) [
  | inr e ↦ record {
    in_line = (cache_access-looked_up c x byte w a).1 ∙ if_false e _ _ ∙ h.in_line;
    byte =
        ap (λ (ls : ℕ → CacheLine). (ls (index_of a)).bytes (offset_of a))
          (cache_access-lines c x byte w)
        ∙ ap (λ (l : CacheLine). l.bytes (offset_of a)) (if_false e _ _)
        ∙ h.byte;
  }
  | inl e ↦
      let i : index_of x ≡ index_of a = sym (==→eq _ _ e) in
      elim safe [
        | inl ne ↦ absurd (ne (==→eq _ _ e))
        | inr (t, no_write) ↦
            let same : resident c x ≡ true = resident-same c a x i t h.in_line in
            record {
              in_line = access-resident c a x byte w e t;
              byte =
                  access-byte c a x byte w e
                  ∙ rw same (
                      written-other (c.lines (index_of x)) (offset_of x) byte w (offset_of a)
                        (λ o. no_write (same_address a x i t o))
                      ∙ ap (λ n. (c.lines n).bytes (offset_of a)) i
                      ∙ h.byte);
            }
      ]
]

-- The read of a byte that the cache holds.
pub read-Holds :
    (c : Cache) (a v old : ℕ)
    → Holds c a v
    → let (hit, byte, _) = cache_access c a (some old) false in (hit ≡ true) × (byte ≡ some v)
unfolding fetched
read-Holds c a v old h =
    let (hit, byte) = cache_access-hit c a (some old) false in
    (hit ∙ h.in_line, byte ∙ ap some (if_true h.in_line _ _ ∙ h.byte))

-- A read that misses returns 0, and a second read of the same address then hits and returns the byte
-- that the line held before: nothing is loaded from memory into the line.
pub read-miss-stale :
    (c : Cache) (a old : ℕ)
    → resident c a ≡ false
    → let (hit, byte, c') = cache_access c a (some old) false in
      let (hit', byte', _) = cache_access c' a (some old) false in
      (hit ≡ false) × (byte ≡ some 0) × (hit' ≡ true) × (byte' ≡ some (byte_at c a))
unfolding fetched line_after written
read-miss-stale c a old h =
    let (hit, byte) = cache_access-hit c a (some old) false in
    let i = eq→== (index_of a) _ refl in
    let held : Holds (cache_access c a (some old) false).2 a (byte_at c a) = record {
      in_line = access-resident c a a (some old) false i refl;
      byte = access-byte c a a (some old) false i ∙ rw h refl;
    } in
    let (hit', byte') = read-Holds _ a (byte_at c a) old held in
    (hit ∙ h, byte ∙ ap some (if_false h _ _), hit', byte')

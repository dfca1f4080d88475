-- ===== src/Radiotap/Walking.antt =====
-- The rule for the walk of `radiotap_meta_from_packet` of src/rx.rs, by an invariant of its rounds.
use mathlib.Core.Option
use meshinator.Prelude.{
  ℕ, zero, suc, ◌+◌, ◌-◌, ◌*◌, ◌/◌, ◌%◌, ◌^◌, ◌≤◌, ◌<◌, ◌≡◌, refl, bit_and, not, List, [], ◌∷◌,
  ◌++◌, Option, none, some, length, length-append, get_or, ltb, leb, ◌==◌, arith,
}
use meshinator.Run.{Run, done, Returns, slice}
use meshinator.Run.Laws.{Returns-if, Returns-bind, index-done, slice-Returns}
use meshinator.Radiotap.{
  or_none, RadiotapMeta, Walk, Flow, next, stop, bail, start_walk, le_u16, le_u32,
  read_present_words, read_field, visit_present, visit_laid_out, meta_of, visit_field, walk_fields,
  read_args, radiotap_meta_from_packet,
}
use meshinator.Radiotap.Layout.{has_flag, align_up, field_layout}

-- A run that ends in a value.
abbrev pub Ends {ℓ} : {A : Type ℓ} → Run A → Type 0
Ends m = Returns (λ _. Unit {0}) m

pub le_u16-Ends : (x : List ℕ) → 2 ≤ length x → Ends (le_u16 x)
unfolding le_u16
le_u16-Ends x h = rw (index-done x 0 0 (omega arith), index-done x 1 0 (omega arith)) tt

pub le_u32-Ends : (x : List ℕ) → 4 ≤ length x → Ends (le_u32 x)
unfolding le_u32
le_u32-Ends x h =
    rw
      (
        index-done x 0 0 (omega arith),
        index-done x 1 0 (omega arith),
        index-done x 2 0 (omega arith),
        index-done x 3 0 (omega arith),
      )
      tt

-- Every known field has a byte to read, a channel four and an MCS three; no field above 22 is known.
pub record IsLayout (field align size : ℕ) : Type 0 where
  pub known : field ≤ 22
  pub some_byte : 1 ≤ size
  pub channel_bytes : field ≡ 3 → 4 ≤ size
  pub mcs_bytes : field ≡ 19 → 3 ≤ size

pub field_layout-IsLayout :
    (field align size : ℕ) → field_layout field ≡ some (align, size) → IsLayout field align size
unfolding field_layout
field_layout-IsLayout field align size e = ground arith

-- What a round leaves behind: `P` before the next round, `Q` where the loop is left.
abbrev pub FlowIs : (Walk → Type 0) → (Walk → Type 0) → Flow → Type 0
FlowIs P Q (next s) = P s
FlowIs P Q (stop s) = Q s
FlowIs P Q bail = Unit {0}

abbrev pub OptionIs {ℓ} : {A : Type ℓ} → (A → Type 0) → Option A → Type 0
OptionIs P none = Unit {0}
OptionIs P (some a) = P a

-- Four bytes a round: a fuel of a quarter of what is left of the packet is enough, and a word is
-- four bytes of the packet.
pub read_present_words-bound :
    (fuel : ℕ) (pkt : List ℕ) (p_off : ℕ) (words : List ℕ)
    → p_off ≤ length pkt
    → length pkt < p_off + 4 * fuel
    → 4 + 4 * length words ≤ p_off
    → Returns
        (OptionIs (λ (ws : List ℕ). 4 * length ws ≤ length pkt))
        (read_present_words fuel pkt p_off words)
unfolding read_present_words
read_present_words-bound zero pkt p_off words h k b = absurd (omega arith)
read_present_words-bound (suc fuel) pkt p_off words h k b =
    Returns-if _ (ltb (length pkt) (p_off + 4)) _ _ (λ short. tt)
      (λ long.
        let fits : p_off + 4 ≤ length pkt = ground arith in
        Returns-bind (λ four. length four ≡ p_off + 4 - p_off) _ (slice pkt p_off (p_off + 4)) _
          (slice-Returns pkt p_off (p_off + 4) (omega arith) fits)
          (λ four e.
            Returns-bind (λ _. Unit {0}) _ (le_u32 four) _ (le_u32-Ends four (omega arith))
              (λ w _.
                Returns-if _ (has_flag w 0x8000_0000) _ _
                  (λ more.
                    read_present_words-bound fuel pkt (p_off + 4)
                      (words ++ (bit_and w 0x7fff_ffff ∷ [])) fits (omega arith)
                      (omega (arith, length-append {0} words (bit_and w 0x7fff_ffff ∷ []))))
                  (λ last. omega (arith, length-append {0} words (bit_and w 0x7fff_ffff ∷ []))))))

-- A meta that was read from a walk which satisfies `P` where the loop was left.
pub record Parsed (pkt : List ℕ) (P : ℕ → Walk → Type 0) (m : RadiotapMeta) : Type 0 where
  pub left_at : ℕ
  pub walk : Walk
  pub holds : P left_at walk
  pub is_meta : m ≡ meta_of m.radiotap_len walk
  pub within : m.radiotap_len ≤ length pkt

module _ (pkt : List ℕ) (P : ℕ → Walk → Type 0) (skip : (i : ℕ) (s : Walk) → P i s → P (i + 1) s)
    (move : (i off : ℕ) (s : Walk) → P i s → P i (record s { cur_off = off }))
    (read : (i align size : ℕ) (bytes : List ℕ) (s : Walk)
      → i < 8 * length pkt
      → IsLayout (i % 2 ^ 32) align size
      → length bytes ≡ size
      → P i s
      → Returns (P (i + 1)) (read_field (i % 2 ^ 32) bytes s)) where
  visit_laid_out_inv :
      (i : ℕ) (s : Walk) (o : Option (ℕ × ℕ))
      → i < 8 * length pkt
      → field_layout (i % 2 ^ 32) ≡ o
      → P i s
      → Returns (FlowIs (P (i + 1)) (P i)) (visit_laid_out pkt (i % 2 ^ 32) s o)
  unfolding visit_laid_out
  visit_laid_out_inv i s none b e v = v
  visit_laid_out_inv i s (some (align, size)) b e v =
      let off : ℕ = align_up s.cur_off align in
      Returns-if _ (ltb (length pkt) (off + size)) _ _ (λ _. tt)
        (λ long.
          let fits : off + size ≤ length pkt = ground arith in
          Returns-bind (λ bytes. length bytes ≡ off + size - off) _ (slice pkt off (off + size)) _
            (slice-Returns pkt off (off + size) (omega arith) fits)
            (λ bytes l.
              Returns-bind (P (i + 1)) _ _ _
                (read i align size bytes (record s { cur_off = off }) b
                  (field_layout-IsLayout _ align size e) (omega arith) (move i off s v))
                (λ s' v'. move (i + 1) (s'.cur_off + size) s' v')))

  visit_field_inv :
      (words : List ℕ) (i : ℕ) (s : Walk)
      → 4 * length words ≤ length pkt
      → i < length words * 32
      → P i s
      → Returns (FlowIs (P (i + 1)) (P i)) (visit_field pkt words i s)
  unfolding visit_field visit_present
  visit_field_inv words i s b h v =
      let below : i / 32 < length words = omega arith in
      rw (index-done words (i / 32) 0 below) (
        Returns-if _ (not (has_flag (get_or words (i / 32) 0) (2 ^ (i % 32)))) _ _ (λ _. skip i s v)
          (λ _.
            Returns-if _ (leb 4 s.ant_idx) _ _ (λ _. v)
              (λ _. visit_laid_out_inv i s _ (omega arith) refl v)))

  walk_fields_inv :
      (words : List ℕ) (rounds i : ℕ) (s : Walk)
      → 4 * length words ≤ length pkt
      → i + rounds ≡ length words * 32
      → P i s
      → Returns (OptionIs (λ s'. (j : ℕ) × P j s')) (walk_fields pkt words rounds i s)
  unfolding walk_fields
  walk_fields_inv words zero i s b h v = (i, v)
  walk_fields_inv words (suc rounds) i s b h v =
      Returns-bind (FlowIs (P (i + 1)) (P i)) _ (visit_field pkt words i s) _
        (visit_field_inv words i s b (omega arith) v)
        (λ flow. after flow (λ s'. walk_fields_inv words rounds (i + 1) s' b (omega arith)))
    where
      after :
          (flow : Flow)
          → ((s' : Walk)
              → P (i + 1) s'
              → Returns (OptionIs (λ t. (j : ℕ) × P j t)) (walk_fields pkt words rounds (i + 1) s'))
          → FlowIs (P (i + 1)) (P i) flow
          → Returns (OptionIs (λ t. (j : ℕ) × P j t)) (elim flow [
            | next s' ↦ walk_fields pkt words rounds (i + 1) s'
            | stop s' ↦ done (some s')
            | bail ↦ done none
          ])
      after (next s') ih q = ih s' q
      after (stop s') ih q = (i, q)
      after bail ih q = tt

  read_args_inv :
      (n : ℕ) (words : List ℕ)
      → 4 * length words ≤ length pkt
      → n ≤ length pkt
      → ((off : ℕ) → P 0 (start_walk off))
      → Returns (OptionIs (Parsed pkt P)) (read_args pkt n words)
  unfolding read_args meta_of
  read_args_inv n words b w start =
      let args_offset : ℕ = 8 + 4 * (length words - 1) in
      Returns-if _ (ltb (length pkt) args_offset) _ _ (λ _. tt)
        (λ _.
          Returns-bind (OptionIs (λ s'. (j : ℕ) × P j s')) _ _ _
            (walk_fields_inv words (length words * 32) 0 (start_walk args_offset) b (omega arith)
              (start args_offset))
            (λ o. result o))
    where
      result :
          (o : Option Walk)
          → OptionIs (λ s'. (j : ℕ) × P j s') o
          → OptionIs (Parsed pkt P) (Option.map (meta_of n) o)
      result none q = tt
      result (some s) q = record {
        left_at = q.0;
        walk = s;
        holds = q.1;
        is_meta = refl;
        within = w;
      }

  pub radiotap_meta_inv :
      ((off : ℕ) → P 0 (start_walk off))
      → Returns (OptionIs (Parsed pkt P)) (radiotap_meta_from_packet pkt)
  unfolding radiotap_meta_from_packet
  radiotap_meta_inv start =
      Returns-if _ (ltb (length pkt) 8) _ _ (λ _. tt)
        (λ long.
          let big : 8 ≤ length pkt = ground arith in
          rw (index-done pkt 0 0 (omega arith)) (
            Returns-if _ (not (get_or pkt 0 0 == 0)) _ _ (λ _. tt)
              (λ _.
                Returns-bind (λ two. length two ≡ 2) _ (slice pkt 2 4) _
                  (slice-Returns pkt 2 4 (omega arith) (omega arith))
                  (λ two l.
                    Returns-bind (λ _. Unit {0}) _ (le_u16 two) _ (le_u16-Ends two (omega arith))
                      (λ n _.
                        Returns-if _ (ltb (length pkt) n) _ _ (λ _. tt)
                          (λ fits.
                            Returns-bind (OptionIs (λ (ws : List ℕ). 4 * length ws ≤ length pkt)) _
                              _ _
                              (read_present_words-bound (length pkt) pkt 4 [] (omega arith)
                                (omega arith) (omega arith))
                              (λ o. result n (ground arith) o)))))))
    where
      result :
          (n : ℕ)
          → n ≤ length pkt
          → (o : Option (List ℕ)) → OptionIs (λ (ws : List ℕ). 4 * length ws ≤ length pkt) o
          → Returns (OptionIs (Parsed pkt P)) (or_none o (read_args pkt n))
      result n w none q = tt
      result n w (some words) q = read_args_inv n words q w start

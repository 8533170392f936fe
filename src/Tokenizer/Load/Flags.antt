-- ===== src/Tokenizer/Load/Flags.antt =====
-- What `Load` has written for the added tokens, and that each id has an entry.
use mathlib.Core.Path.{subst}
use flash_qwen.Prelude.Int.{pos}
use flash_qwen.Prelude.{
  ℕ, ◌+◌, ◌≤◌, ◌<◌, true, false, List, [], ◌∷◌, ◌++◌, Option, none, some, length, map, get_or,
  replicate, ltb, if◌then◌else◌, Bytes, ◌≡◌, ◌≢◌, refl, sym, ap, ◌∙◌, arith, ◌⊎◌, inl, inr,
}
use flash_qwen.Tokenizer.Encode.Leftmost.{Among}
use flash_qwen.Tokenizer.Load.{max_from, ids_of, blank, add_tokens, add_specials, build, load}
use flash_qwen.Tokenizer.Load.Tables.{
  length-set, length-replicate, get_or-replicate, sets, length-sets, get_or-sets, get_or-sets_other,
}
use flash_qwen.Tokenizer.{Special, Tokenizer, token_bytes, is_special}

max_from_start : (m : ℕ) (ids : List ℕ) → m ≤ max_from m ids
max_from_start m [] = omega arith
max_from_start m (id ∷ ids) = ground (arith, max_from_start m ids, max_from_start id ids)

max_from-append_right :
    (m : ℕ) (xs ys : List ℕ) (id : ℕ) → ((k : ℕ) → id ≤ max_from k ys) → id ≤ max_from m (xs ++ ys)
max_from-append_right m [] ys id h = h m
max_from-append_right m (x ∷ xs) ys id h =
    max_from-append_right (if ltb m x then x else m) xs ys id h

special_bound :
    (specials : List Special) (sp : Special) (k : ℕ)
    → Among sp specials
    → sp.id ≤ max_from k (map (λ (x : Special). x.id) specials)
special_bound [] sp k a = absurd a
special_bound (x ∷ specials) sp k (inl e) = ground (
  arith,
  ap (λ (y : Special). y.id) e,
  max_from_start k (map (λ (y : Special). y.id) specials),
  max_from_start x.id (map (λ (y : Special). y.id) specials),
)
special_bound (x ∷ specials) sp k (inr a) =
    special_bound specials sp (if ltb k x.id then x.id else k) a

-- The entry stands in the vocabulary.
abbrev pub IsEntry : Bytes × ℕ → List (Bytes × ℕ) → Type 0
IsEntry e [] = ⊥
IsEntry e (x ∷ vocab) = (e ≡ x) ⊎ IsEntry e vocab

entry_bound :
    (vocab : List (Bytes × ℕ)) (e : Bytes × ℕ) (k : ℕ) (ys : List ℕ)
    → IsEntry e vocab
    → e.1 ≤ max_from k (map (λ (x : Bytes × ℕ). x.1) vocab ++ ys)
entry_bound [] e k ys a = absurd a
entry_bound (x ∷ vocab) e k ys (inl same) = ground (
  arith,
  ap (λ (y : Bytes × ℕ). y.1) same,
  max_from_start k (map (λ (y : Bytes × ℕ). y.1) vocab ++ ys),
  max_from_start x.1 (map (λ (y : Bytes × ℕ). y.1) vocab ++ ys),
)
entry_bound (x ∷ vocab) e k ys (inr a) = entry_bound vocab e (if ltb k x.1 then x.1 else k) ys a

add_tokens_sizes :
    (vocab : List (Bytes × ℕ)) (t : Tokenizer)
    → (length (add_tokens vocab t).id_to_tok ≡ length t.id_to_tok)
      × ((add_tokens vocab t).special_f ≡ t.special_f)
unfolding add_tokens
add_tokens_sizes [] t = (refl, refl)
add_tokens_sizes ((sym, id) ∷ vocab) t =
    let (size, same) = add_tokens_sizes vocab _ in (size ∙ length-set id _ t.id_to_tok, same)

add_specials-sets :
    (specials : List Special) (t : Tokenizer)
    → ((add_specials specials t).id_to_tok ≡ sets (λ sp. sp.str) specials t.id_to_tok)
      × ((add_specials specials t).special_f ≡ sets (λ sp. true) specials t.special_f)
unfolding add_specials
add_specials-sets [] t = (refl, refl)
add_specials-sets (sp ∷ specials) t = add_specials-sets specials _

-- What the tokens are after loading.
pub record IsLoaded (added : List Special) (vocab : List (Bytes × ℕ)) (t : Tokenizer) : Type 0 where
  pub sizes : length t.special_f ≡ length t.id_to_tok
  pub room_vocab : (e : Bytes × ℕ) → IsEntry e vocab → e.1 < length t.id_to_tok
  pub room_added : (sp : Special) → Among sp added → sp.id < length t.id_to_tok
  pub flagged : (sp : Special) → Among sp added → is_special t (pos sp.id) ≡ true
  pub plain : (n : ℕ) → ((sp : Special) → Among sp added → sp.id ≢ n) → is_special t (pos n) ≡ false
  pub bytes :
      (sp : Special)
      → Among sp added
      → ((x : Special) → Among x added → x.id ≡ sp.id → x.str ≡ sp.str)
      → token_bytes t (pos sp.id) ≡ sp.str

module _ (sort : List Special → List Special) (added : List Special) (vocab : List (Bytes × ℕ))
    (lines : List Bytes) where
  -- The tables that the added tokens are written over.
  abbrev start : Tokenizer
  start = add_tokens vocab (blank (max_from 0 (ids_of vocab added)))

  start_sizes :
      (length start.id_to_tok ≡ max_from 0 (ids_of vocab added) + 1)
      × (start.special_f ≡ replicate (max_from 0 (ids_of vocab added) + 1) false)
  unfolding blank
  start_sizes =
      let (size, same) = add_tokens_sizes vocab (blank (max_from 0 (ids_of vocab added))) in
      (size ∙ length-replicate (max_from 0 (ids_of vocab added) + 1) [], same)

  build_sizes :
      (length (build sort added vocab lines).id_to_tok ≡ max_from 0 (ids_of vocab added) + 1)
      × (length (build sort added vocab lines).special_f ≡ max_from 0 (ids_of vocab added) + 1)
  unfolding build
  build_sizes =
      let (toks, flags) = add_specials-sets added start in
      (
        ap length toks ∙ length-sets (λ sp. sp.str) added start.id_to_tok ∙ start_sizes.0,
        ap length flags
            ∙ length-sets (λ sp. true) added start.special_f
            ∙ ap length start_sizes.1
            ∙ length-replicate (max_from 0 (ids_of vocab added) + 1) false,
      )

  inside : (sp : Special) → Among sp added → sp.id < max_from 0 (ids_of vocab added) + 1
  inside sp a = omega (
    arith,
    max_from-append_right 0 (map (λ (e : Bytes × ℕ). e.1) vocab) (map (λ (x : Special). x.id) added)
        sp.id (λ k. special_bound added sp k a),
  )

  built : Tokenizer
  unfolding build
  built = build sort added vocab lines

  flag_start : (n : ℕ) → get_or start.special_f n false ≡ false
  flag_start n =
      ap (λ xs. get_or xs n false) start_sizes.1
      ∙ get_or-replicate (max_from 0 (ids_of vocab added) + 1) n false

  flag_of : (sp : Special) → Among sp added → get_or built.special_f sp.id false ≡ true
  unfolding built
  flag_of sp a =
      ap (λ xs. get_or xs sp.id false) (add_specials-sets added start).1
      ∙ get_or-sets (λ x. true) added start.special_f sp.id true false
          (omega (
            arith,
            inside sp a,
            ap length start_sizes.1,
            length-replicate (max_from 0 (ids_of vocab added) + 1) false,
          ))
          (λ x b e. refl) (inr (sp, a, refl))

  no_flag :
      (n : ℕ)
      → ((sp : Special) → Among sp added → sp.id ≢ n)
      → get_or built.special_f n false ≡ false
  unfolding built
  no_flag n none_of =
      ap (λ xs. get_or xs n false) (add_specials-sets added start).1
      ∙ get_or-sets_other (λ x. true) added start.special_f n false none_of
      ∙ flag_start n

  token_of :
      (sp : Special)
      → Among sp added
      → ((x : Special) → Among x added → x.id ≡ sp.id → x.str ≡ sp.str)
      → get_or built.id_to_tok sp.id [] ≡ sp.str
  unfolding built
  token_of sp a agree =
      ap (λ xs. get_or xs sp.id []) (add_specials-sets added start).0
      ∙ get_or-sets (λ x. x.str) added start.id_to_tok sp.id sp.str []
          (omega (arith, inside sp a, start_sizes.0)) agree (inr (sp, a, refl))

  inside_vocab : (e : Bytes × ℕ) → IsEntry e vocab → e.1 < max_from 0 (ids_of vocab added) + 1
  inside_vocab e a = omega (arith, entry_bound vocab e 0 (map (λ (x : Special). x.id) added) a)

  built-IsLoaded : IsLoaded added vocab built
  built-IsLoaded =
      let (toks, flags) : (length built.id_to_tok ≡ max_from 0 (ids_of vocab added) + 1)
          × (length built.special_f ≡ max_from 0 (ids_of vocab added) + 1) =
        unfold built in build_sizes in
      record {
        sizes = flags ∙ sym toks;
        room_vocab = λ e a. omega (arith, toks, inside_vocab e a);
        room_added = λ sp a. omega (arith, toks, inside sp a);
        flagged = λ sp a. unfold is_special in ground (arith, flag_of sp a, flags, inside sp a);
        plain = λ n none_of. unfold is_special in ground (arith, no_flag n none_of);
        bytes = λ sp a agree.
            unfold token_bytes in ground (arith, token_of sp a agree, toks, inside sp a);
      }

some_inj : {a b : Tokenizer} → some a ≡ some b → a ≡ b
some_inj e = cc

-- If `Load` succeeds, the added tokens and the vocabulary were read; the two tables by id are of one
-- length and have an entry for each id of the vocabulary and of the added tokens; the ids of the added
-- tokens and no others are special; and an added token decodes to its literal, also where the
-- vocabulary has its id, if no other added token has that id with another literal.
pub load-IsLoaded :
    (sort : List Special → List Special) (added : Option (List Special))
    (vocab : Option (List (Bytes × ℕ))) (lines : Option (List Bytes)) (t : Tokenizer)
    → load sort added vocab lines ≡ some t
    → (specials : List Special) × (entries : List (Bytes × ℕ)) × (added ≡ some specials)
      × (vocab ≡ some entries)
      × IsLoaded specials entries t
unfolding load
load-IsLoaded sort none vocab lines t e = cc
load-IsLoaded sort (some added) none lines t e = cc
load-IsLoaded sort (some added) (some vocab) none t e = cc
load-IsLoaded sort (some added) (some vocab) (some lines) t e = (
  added,
  vocab,
  refl,
  refl,
  subst (IsLoaded added vocab) (some_inj e) (unfold built in built-IsLoaded sort added vocab lines),
)

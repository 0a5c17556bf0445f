-- ===== src/Util/Settings/Written.antt =====
-- emu/util/settings.cpp: `parse_conf` on a file of keys and values.
use yanesemu.Prelude.{
  ℕ, zero, suc, ◌+◌, ◌≤◌, ◌≡◌, ◌∙◌, refl, sym, ap, arith, Bool, true, false, not, ◌==◌, ◌&&◌, List,
  [], ◌∷◌, ◌++◌, length, length-append, Text, if◌then◌else◌, if_false,
}
use mathlib.Core.List.{append_assoc}
use yanesemu.Util.File.{File, is_empty, skip_space, read_until, getline}
use yanesemu.Util.File.Reading.{starts_plain, skip_space-plain, plain_line, getline-line}
use yanesemu.Util.Strings.{strsplit, strsplit-terminate, lacks}
use yanesemu.Util.Settings.{Notice, store_pair, is_comment, read_line, read_lines}

abbrev pub pair_line : Text × Text → Text
pair_line (key, value) = key ++ (b'=' ∷ value)

abbrev pub conf_text : List (Text × Text) → Text
conf_text [] = []
conf_text (kv ∷ pairs) = pair_line kv ++ (10 ∷ conf_text pairs)

-- A key begins neither with a blank nor with a `#`, and neither is empty or holds a `=` or a newline.
abbrev pub is_pair : Text × Text → Bool
is_pair (key, value) =
    not (is_comment key)
    && starts_plain key
    && lacks b'=' key
    && lacks 10 key
    && not (is_empty value)
    && lacks b'=' value
    && lacks 10 value

abbrev pub are_pairs : List (Text × Text) → Bool
are_pairs [] = true
are_pairs (kv ∷ pairs) = is_pair kv && are_pairs pairs

-- The pairs, the last one first.
abbrev pub newest_first : List (Text × Text) → List (Text × Text) → List (Text × Text)
newest_first [] kvmap = kvmap
newest_first (kv ∷ pairs) kvmap = newest_first pairs (kv ∷ kvmap)

lacks-append : (c : ℕ) (s t : Text) → lacks c s ≡ true → lacks c t ≡ true → lacks c (s ++ t) ≡ true
lacks-append c [] t hs ht = ht
lacks-append c (d ∷ s) t hs ht = ground (arith, lacks-append c s t)

read_pair :
    (key value : Text) (kvmap : List (Text × Text))
    → is_pair (key, value) ≡ true
    → read_line (key ++ (b'=' ∷ value)) kvmap ≡ ((key, value) ∷ kvmap, [])
unfolding read_line store_pair
read_pair [] value kvmap h = cc
read_pair (c ∷ key) [] kvmap h = ground arith
read_pair (c ∷ key) (v ∷ value) kvmap h =
    let line = (c ∷ key) ++ (b'=' ∷ (v ∷ value)) in
    let split : strsplit line b'=' ≡ (c ∷ key) ∷ (v ∷ value) ∷ [] =
      ap (λ t. strsplit t b'=') (sym (append_assoc (c ∷ key) (b'=' ∷ []) (v ∷ value)))
      ∙ strsplit-terminate b'=' ((c ∷ key) ∷ []) (v ∷ value) (ground arith) (ground arith) in
    if_false (c == b'#') _ _ (ground arith) ∙ ap (λ words. store_pair line words kvmap) split

line_plain :
    (key value : Text) → is_pair (key, value) ≡ true → starts_plain (pair_line (key, value)) ≡ true
line_plain [] value h = cc
line_plain (c ∷ key) value h = ground arith

line_whole :
    (key value : Text) → is_pair (key, value) ≡ true → lacks 10 (pair_line (key, value)) ≡ true
line_whole key value h = lacks-append 10 key (b'=' ∷ value) (ground arith) (ground arith)

getline-end : (f : File) → f.input ≡ [] → (getline 10 f).0 ≡ false
unfolding getline skip_space read_until
getline-end f e = ap (λ s. not (is_empty (read_until (λ c. c == 10) (skip_space s)).1)) e

pub read_pairs :
    (fuel : ℕ) (pairs : List (Text × Text)) (f : File) (kvmap : List (Text × Text))
    → are_pairs pairs ≡ true
    → f.input ≡ conf_text pairs
    → length (conf_text pairs) + 1 ≤ fuel
    → read_lines fuel f kvmap ≡ (newest_first pairs kvmap, [])
unfolding read_lines
read_pairs zero pairs f kvmap h e enough = absurd (omega arith)
read_pairs (suc fuel) [] f kvmap h e enough = if_false (getline 10 f).0 _ _ (getline-end f e)
read_pairs (suc fuel) ((key, value) ∷ pairs) f kvmap h e enough =
    let line = pair_line (key, value) in
    let more = conf_text pairs in
    let g : File = record f { input = more } in
    let pair : is_pair (key, value) ≡ true = ground arith in
    let shorter = length-append line (10 ∷ more) in
    ap
      (λ (q : Bool × Text × File).
        let p = read_line q.1 kvmap in
        let m = read_lines fuel q.2 p.0 in
        let r : List (Text × Text) × List Notice = if q.0 then (m.0, p.1 ++ m.1) else (kvmap, []) in
        r)
      (getline-line f line more (line_whole key value pair) (
        ap skip_space e
        ∙ skip_space-plain (line ++ (10 ∷ more))
            (plain_line line more (line_plain key value pair))))
    ∙ ap
        (λ (p : List (Text × Text) × List Notice).
          let m = read_lines fuel g p.0 in
          let r : List (Text × Text) × List Notice = (m.0, p.1 ++ m.1) in r)
        (read_pair key value kvmap pair)
    ∙ read_pairs fuel pairs g ((key, value) ∷ kvmap) (ground arith) refl (omega (arith, shorter))

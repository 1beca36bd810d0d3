-- ===== src/Acquisition/Proxies.antt =====
-- packages/acquisition/proxy_pool.py: the proxies, their choice by weight, and what is recorded on
-- them. An entry is shared by reference there; here it is named by its position in the pool.
pub mod Available
use airflow_kbo.Prelude.{
  ℕ, zero, suc, ◌+◌, Char, String, Bool, true, false, Option, none, some, List, [], ◌∷◌, ◌++◌, ◌==◌,
  ◌||◌, ◌&&◌, not, if◌then◌else◌, ltb, leb, nat_eq, length, count_if,
}
use airflow_kbo.Text.{Unicode, ◌<>◌, truthy, size, all_chars, has_prefix, strip, char_eq}

-- Python's floats and random numbers: `decimal m k` is the literal m / 10^k, and `uniform n a b` the
-- n-th call of `random.uniform(a, b)`. Then `str` and `int` of an integer, and the class `\w`.
pub record Numbers (F : Type 0) : Type 0 where
  pub decimal : ℕ → ℕ → F
  pub plus : F → F → F
  pub times : F → F → F
  pub less : F → F → Bool
  pub at_most : F → F → Bool
  pub uniform : ℕ → F → F → F
  pub str : ℕ → String
  pub int : String → Option ℕ
  pub is_word : Char → Bool

pub record ProxyEntry (F : Type 0) : Type 0 where
  pub host : String
  pub port : ℕ
  pub weight : F
  pub healthy : Bool

-- `draws` counts the calls of the random generator.
pub record ProxyPool (F : Type 0) : Type 0 where
  pub entries : List (ProxyEntry F)
  pub allow_direct : Bool
  pub draws : ℕ

-- xs[i] = f(xs[i])
unfoldable pub change_at {ℓ} : {A : Type ℓ} → ℕ → (A → A) → List A → List A
change_at i f [] = []
change_at zero f (x ∷ xs) = f x ∷ xs
change_at (suc i) f (x ∷ xs) = x ∷ change_at i f xs

-- s.rsplit(":", 1), where there is a colon.
unfoldable pub rsplit_colon : String → Option (String × String)
rsplit_colon String.[] = none
rsplit_colon (String.◌∷◌ c s) =
    let rest = rsplit_colon s in
    elim rest [
      | some (host, port) ↦ some (String.◌∷◌ c host, port)
      | none ↦ if char_eq c ":" then some ("", s) else none
    ]

-- `^[\w.-]+:\d{1,5}$`, by the classes `\w` and `\d`; the text is stripped, so it does not end with a
-- newline.
abbrev pub is_host : (Char → Bool) → String → Bool
is_host word s = truthy s && all_chars (λ c. word c || char_eq c "." || char_eq c "-") s

abbrev pub is_port : (Char → Bool) → String → Bool
is_port digit s = truthy s && leb (size s) 5 && all_chars digit s

module _ {F : Type 0} ⦃nums : Numbers F⦄ where
  abbrev pub label : ProxyEntry F → String
  label e = e.host <> ":" <> nums.str e.port

  abbrev pub url : ProxyEntry F → String
  url e = "http://" <> e.host <> ":" <> nums.str e.port

  abbrev pub available : ProxyEntry F → Bool
  available e = e.healthy && nums.less (nums.decimal 0 0) e.weight

  -- min(a, b) and max(a, b)
  abbrev pub float_min : F → F → F
  float_min a b = if nums.less b a then b else a

  abbrev pub float_max : F → F → F
  float_max a b = if nums.less a b then b else a

  -- The available entries with their positions, the first of the list at position `i`.
  unfoldable pub candidates : ℕ → List (ProxyEntry F) → List (ℕ × F)
  candidates i [] = []
  candidates i (e ∷ es) =
      let rest = candidates (suc i) es in if available e then (i, e.weight) ∷ rest else rest

  abbrev pub total_weight : F → List (ℕ × F) → F
  total_weight total [] = total
  total_weight total (c ∷ cs) = total_weight (nums.plus total c.1) cs

  -- The loop over the candidates: the first at which the running weight reaches the draw, or the last.
  unfoldable pub reach : F → F → ℕ → List (ℕ × F) → ℕ
  reach r upto last [] = last
  reach r upto last (c ∷ cs) =
      let upto' = nums.plus upto c.1 in
      let rest = reach r upto' c.0 cs in if nums.at_most r upto' then c.0 else rest

  abbrev pub pick_from : ℕ → List (ℕ × F) → Option ℕ
  pick_from n [] = none
  pick_from n (c ∷ cs) =
      let draw = nums.uniform n (nums.decimal 0 0) (total_weight (nums.decimal 0 0) (c ∷ cs)) in
      some (reach draw (nums.decimal 0 0) c.0 (c ∷ cs))

  abbrev pub count_draw : ℕ → List (ℕ × F) → ℕ
  count_draw n [] = n
  count_draw n (c ∷ cs) = suc n

  unfoldable pub pick : ProxyPool F → Option ℕ × ProxyPool F
  unfolding candidates reach
  pick pool =
      let found = candidates 0 pool.entries in
      (pick_from pool.draws found, record pool { draws = count_draw pool.draws found })

  abbrev pub on_entry : Option ℕ → (ProxyEntry F → ProxyEntry F) → ProxyPool F → ProxyPool F
  on_entry none f pool = pool
  on_entry (some i) f pool = record pool { entries = change_at i f pool.entries }

  abbrev pub raise_weight : ProxyEntry F → ProxyEntry F
  raise_weight e = record e {
    weight =
        float_min (nums.plus (nums.times e.weight (nums.decimal 11 1)) (nums.decimal 1 1))
          (nums.decimal 100 1);
  }

  unfoldable pub record_success : Option ℕ → ProxyPool F → ProxyPool F
  unfolding change_at
  record_success entry pool = on_entry entry raise_weight pool

  abbrev pub lower_weight : String → ProxyEntry F → ProxyEntry F
  lower_weight reason e = record e {
    weight = float_max (nums.times e.weight (nums.decimal 5 1)) (nums.decimal 1 2);
    healthy =
        if (reason == "tunnel") || (reason == "timeout") || (reason == "connection")
        then false
        else e.healthy;
  }

  unfoldable pub record_failure : Option ℕ → String → ProxyPool F → ProxyPool F
  unfolding change_at
  record_failure entry reason pool = on_entry entry (lower_weight reason) pool

  abbrev pub disable : ProxyEntry F → ProxyEntry F
  disable e = record e { healthy = false; weight = nums.decimal 0 0 }

  -- The first entry with the label is disabled.
  unfoldable pub ban_first : String → List (ProxyEntry F) → List (ProxyEntry F)
  ban_first name [] = []
  ban_first name (e ∷ es) =
      let rest = ban_first name es in if label e == name then disable e ∷ es else e ∷ rest

  unfoldable pub ban_proxy_label : String → ProxyPool F → ProxyPool F
  unfolding ban_first
  ban_proxy_label name pool = record pool { entries = ban_first name pool.entries }

  unfoldable pub healthy_count : ProxyPool F → ℕ
  healthy_count pool = count_if available pool.entries

  -- The probe of an entry, by whether its request comes back.
  abbrev pub mark_probe : Bool → ProxyEntry F → ProxyEntry F
  mark_probe true e = record e { healthy = true }
  mark_probe false e = disable e

  unfoldable pub probe_all : (String → Bool) → List (ProxyEntry F) → ℕ × List (ProxyEntry F)
  probe_all answers [] = (0, [])
  probe_all answers (e ∷ es) =
      let (n, rest) = probe_all answers es in
      let works = answers (url e) in (if works then suc n else n, mark_probe works e ∷ rest)

  unfoldable pub filter_working_sync : (String → Bool) → ProxyPool F → ℕ × ProxyPool F
  unfolding probe_all
  filter_working_sync answers pool =
      let (n, entries) = probe_all answers pool.entries in (n, record pool { entries = entries })

  module _ ⦃u : Unicode⦄ where
    abbrev pub entry_at : String → Option ℕ → Option (ProxyEntry F)
    entry_at host none = none
    entry_at host (some port) =
        if ltb port 1 || ltb 65_535 port
        then none
        else some (record { host = host; port = port; weight = nums.decimal 10 1; healthy = true })

    unfoldable pub parse_proxy_line : String → Option (ProxyEntry F)
    unfolding rsplit_colon
    parse_proxy_line line =
        let stripped = strip line in
        if not (truthy stripped) || has_prefix "#" stripped
        then none
        else elim (rsplit_colon stripped) [
          | none ↦ none
          | some (host, port) ↦
              if is_host nums.is_word host && is_port u.is_digit port
              then entry_at host (nums.int port)
              else none
        ]

    -- The entries of the lines of a file, or of a list that is downloaded.
    unfoldable pub parse_proxy_lines : List String → List (ProxyEntry F)
    unfolding parse_proxy_line
    parse_proxy_lines [] = []
    parse_proxy_lines (line ∷ lines) =
        let rest = parse_proxy_lines lines in
        elim (parse_proxy_line line) [ none ↦ rest | some e ↦ e ∷ rest ]

    -- `texts` are the lines of the proxy file and of each list that is downloaded, none where there
    -- is no file or the download fails. The thread of the health checks is left out.
    abbrev pub entries_of : List (List String) → List (ProxyEntry F)
    entries_of [] = []
    entries_of (text ∷ texts) = parse_proxy_lines text ++ entries_of texts

    unfoldable pub from_config : Bool → Bool → List (List String) → ProxyPool F
    unfolding parse_proxy_lines
    from_config use_proxies allow_direct texts =
        if use_proxies
        then record { entries = entries_of texts; allow_direct = allow_direct; draws = 0 }
        else record { entries = []; allow_direct = true; draws = 0 }

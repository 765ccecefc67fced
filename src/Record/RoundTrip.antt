-- ===== src/Record/RoundTrip.antt =====
-- From the fields of a record to its raw data and back (ic35frec.c).
use ic35link.Base.{
  ℕ, ◌+◌, ◌-◌, ◌≤◌, ◌≡◌, refl, sym, ap, ap₂, ◌∙◌, Option, none, some, List, [], ◌∷◌, ◌++◌, map,
  arith, length, take, drop, replicate, All, All-take, u8, length-append, length-take, length-map,
  take-length, drop-length, IsByte, All-append, All-drop, length-drop,
}
use ic35link.Record.{
  Fld, empty_fld, Ic35Rec, del_ic35recbuffs, fields_found, fill, set_ic35recdata, fix_fld,
  fld_bytes, total, texts, rebuild, get_ic35recdata, fetch_data,
}
use ic35link.Record.Ids.{maxflds}
use ic35link.Record.Wf.{IsFld, IsWf}
use ic35link.Record.Parse.{need, fit_count, fit_count_exact, fields_found-fit_count}

-- A field as it is read from raw data: its length, and a pointer to exactly its bytes.
abbrev pub plain : Fld → Fld
plain f = record { len = f.len; ptr = some (fld_bytes f) }

abbrev pub lens : List Fld → List ℕ
lens fs = map (λ f. u8 (fix_fld f).len) fs

fix_fld-len :
    (len : ℕ) (ptr : Option (List ℕ))
    → IsFld (record { len = len; ptr = ptr })
    → u8 (fix_fld (record { len = len; ptr = ptr })).len ≡ len
fix_fld-len len none w = omega arith
fix_fld-len len (some text) w = omega arith

length-fld_bytes :
    (len : ℕ) (ptr : Option (List ℕ))
    → IsFld (record { len = len; ptr = ptr })
    → length (fld_bytes (record { len = len; ptr = ptr })) ≡ len
length-fld_bytes len none w = omega arith
length-fld_bytes len (some text) w = omega (arith, length-take len text)

total-need : (fs : List Fld) → All IsFld fs → total fs ≡ need (lens fs)
total-need [] w = refl
total-need (f ∷ fs) w = omega (arith, fix_fld-len f.len f.ptr w.0, total-need fs w.1)

length-texts : (fs : List Fld) → All IsFld fs → length (texts fs) + length fs ≡ total fs
length-texts [] w = refl
length-texts (f ∷ fs) w = omega (
  arith,
  length-append (fld_bytes f) (texts fs),
  length-fld_bytes f.len f.ptr w.0,
  length-texts fs w.1,
)

-- The length that is reported for rebuilt data is that of the bytes written.
length-rebuild : (fs : List Fld) → All IsFld fs → length (rebuild fs) ≡ total fs
length-rebuild fs w = omega (
  arith,
  length-append (lens fs) (texts fs),
  length-map fs (λ f. u8 (fix_fld f).len),
  length-texts fs w,
)

fill-texts : (fs : List Fld) → All IsFld fs → fill (lens fs) (texts fs) ≡ map plain fs
unfolding fill
fill-texts [] w = refl
fill-texts (f ∷ fs) w =
    let n : u8 (fix_fld f).len ≡ f.len = fix_fld-len f.len f.ptr w.0 in
    let same : f.len ≡ length (fld_bytes f) = sym (length-fld_bytes f.len f.ptr w.0) in
    ap
      (λ l.
        record { len = l; ptr = some (take l (fld_bytes f ++ texts fs)) }
        ∷ fill (lens fs) (drop l (fld_bytes f ++ texts fs)))
      n
    ∙ ap₂ (λ text rest. record { len = f.len; ptr = some text } ∷ fill (lens fs) rest)
        (take-length (fld_bytes f) (texts fs) f.len same)
        (drop-length (fld_bytes f) (texts fs) f.len same)
    ∙ ap (λ t. plain f ∷ t) (fill-texts fs w.1)

fields_found-rebuild :
    (stray : ℕ) (fs : List Fld)
    → All IsFld fs
    → length fs ≤ maxflds
    → fields_found stray (rebuild fs) ≡ length fs
fields_found-rebuild stray fs w h =
    fields_found-fit_count stray (rebuild fs)
    ∙ ap (λ m. fit_count maxflds m (rebuild fs)) (length-rebuild fs w ∙ total-need fs w)
    ∙ fit_count_exact maxflds (lens fs) (texts fs)
        (omega (arith, length-map fs (λ f. u8 (fix_fld f).len)))
    ∙ length-map fs (λ f. u8 (fix_fld f).len)

abbrev pub parsed : ℕ → List Fld → List Fld
parsed n fs = map plain fs ++ replicate (maxflds - n) empty_fld

-- Rebuilt data is read back field by field.
set-rebuild :
    (stray : ℕ) (t : Ic35Rec) (fs : List Fld)
    → All IsFld fs
    → length fs ≤ maxflds
    → ((set_ic35recdata stray t (rebuild fs)).nflds ≡ length fs)
      × ((set_ic35recdata stray t (rebuild fs)).flds ≡ parsed (length fs) fs)
set-rebuild stray t [] w h = unfold set_ic35recdata del_ic35recbuffs in (refl, refl)
set-rebuild stray t (f ∷ fs) w h =
    let all : List Fld = f ∷ fs in
    let bytes : List ℕ = rebuild all in
    let n : fields_found stray bytes ≡ length all = fields_found-rebuild stray all w h in
    let k : length all ≡ length (lens all) = sym (length-map all (λ g. u8 (fix_fld g).len)) in
    unfold set_ic35recdata in
    (
      n,
      ap (λ m. fill (take m bytes) (drop m bytes) ++ replicate (maxflds - m) empty_fld) n
          ∙ ap₂ (λ l x. fill l x ++ replicate (maxflds - length all) empty_fld)
              (take-length (lens all) (texts all) (length all) k)
              (drop-length (lens all) (texts all) (length all) k)
          ∙ ap (λ l. l ++ replicate (maxflds - length all) empty_fld) (fill-texts all w),
    )

abbrev pub used : Ic35Rec → List Fld
used r = take r.nflds r.flds

-- A well-formed record whose raw data must be rebuilt: get_ic35recdata() reports the true length
-- of the data that it builds, and set_ic35recdata() of that data gives any record the same number
-- of fields, each with its length and its bytes, and empty fields behind them.
pub set_ic35recdata-get_ic35recdata :
    (stray : ℕ) (r t : Ic35Rec)
    → IsWf r
    → r.raw ≡ none
    → let (_, bytes, dlen) = get_ic35recdata r in
      (dlen ≡ length bytes)
      × ((set_ic35recdata stray t bytes).nflds ≡ r.nflds)
      × ((set_ic35recdata stray t bytes).flds ≡ parsed r.nflds (used r))
set_ic35recdata-get_ic35recdata stray r t w e =
    let fs : List Fld = used r in
    let wf : All IsFld fs = All-take IsFld r.nflds r.flds w.fields in
    let n : length fs ≡ r.nflds = omega (arith, length-take r.nflds r.flds, w.few, w.room) in
    let (nf, fl) = set-rebuild stray t fs wf (omega (arith, w.few)) in
    unfold get_ic35recdata in
    rw e (sym (length-rebuild fs wf), nf ∙ n, fl ∙ ap (λ m. parsed m fs) n)

fix_fld-IsFld : (f : Fld) → IsFld f → IsFld (fix_fld f)
fix_fld-IsFld f w = fixed f.len f.ptr w
  where
    fixed :
        (len : ℕ) (ptr : Option (List ℕ))
        → IsFld (record { len = len; ptr = ptr })
        → IsFld (fix_fld (record { len = len; ptr = ptr }))
    fixed len none h = (omega arith, refl)
    fixed len (some text) h = h

map-IsFld : (fs : List Fld) → All IsFld fs → All IsFld (map fix_fld fs)
map-IsFld [] w = tt
map-IsFld (f ∷ fs) w = (fix_fld-IsFld f w.0, map-IsFld fs w.1)

lens-IsByte : (fs : List Fld) → All IsByte (lens fs)
lens-IsByte [] = tt
lens-IsByte (f ∷ fs) = (omega arith, lens-IsByte fs)

texts-IsByte : (fs : List Fld) → All IsFld fs → All IsByte (texts fs)
texts-IsByte [] w = tt
texts-IsByte (f ∷ fs) w =
    All-append IsByte (fld_bytes f) (texts fs) (text f.len f.ptr w.0) (texts-IsByte fs w.1)
  where
    text :
        (len : ℕ) (ptr : Option (List ℕ))
        → IsFld (record { len = len; ptr = ptr })
        → All IsByte (fld_bytes (record { len = len; ptr = ptr }))
    text len none h = tt
    text len (some t) h = All-take IsByte len t h.1.1

-- Fetching the raw data, rebuilt or not, keeps the invariant.
get_ic35recdata-IsWf : (r : Ic35Rec) → IsWf r → IsWf (get_ic35recdata r).0
unfolding get_ic35recdata
get_ic35recdata-IsWf r w = fetched r.raw
  where
    fetched : (raw : Option (List ℕ)) → IsWf (fetch_data r raw).0
    fetched (some bytes) = w
    fetched none =
        let fs : List Fld = used r in
        let wf : All IsFld fs = All-take IsFld r.nflds r.flds w.fields in
        record {
          room = omega (
            arith,
            length-append (map fix_fld fs) (drop r.nflds r.flds),
            length-map fs fix_fld,
            length-take r.nflds r.flds,
            length-drop r.nflds r.flds,
            w.few,
            w.room,
          );
          few = w.few;
          fields =
              All-append IsFld (map fix_fld fs) (drop r.nflds r.flds) (map-IsFld fs wf)
                (All-drop IsFld r.nflds r.flds w.fields);
          whole = (
            sym (length-rebuild fs wf),
            All-append IsByte (lens fs) (texts fs) (lens-IsByte fs) (texts-IsByte fs wf),
          );
        }

-- ===== src/Raftlog/Record/Files.antt =====
-- internal/raftlog/log.go: a file of whole records, cut and extended at the boundaries of records.
use uptime_monitor.Prelude.{
  ℕ, zero, suc, ◌+◌, ◌<◌, ◌≡◌, refl, sym, ap, ◌∙◌, List, [], ◌∷◌, ◌++◌, length, take, drop, get_or,
  length-append, take-append-drop, take-append_length, append-nil, append_assoc, arith,
}
use uptime_monitor.Raftlog.Entry.{Entry}
use uptime_monitor.Raftlog.Record.{record_of, encode_all, starts}

pub encode_all-append :
    (es fs : List Entry) → encode_all (es ++ fs) ≡ encode_all es ++ encode_all fs
unfolding encode_all
encode_all-append [] fs = refl
encode_all-append (e ∷ es) fs =
    ap (λ x. record_of e ++ x) (encode_all-append es fs)
    ∙ sym (append_assoc (record_of e) (encode_all es) (encode_all fs))

pub encode_all-snoc :
    (es : List Entry) (e : Entry) → encode_all (es ++ e ∷ []) ≡ encode_all es ++ record_of e
unfolding encode_all
encode_all-snoc es e =
    encode_all-append es (e ∷ []) ∙ ap (λ x. encode_all es ++ x) (append-nil (record_of e))

pub starts-snoc :
    (off : ℕ) (es : List Entry) (e : Entry)
    → starts off (es ++ e ∷ []) ≡ starts off es ++ (off + length (encode_all es)) ∷ []
unfolding encode_all starts
starts-snoc off [] e = ap (λ n. n ∷ []) (omega arith)
starts-snoc off (x ∷ xs) e =
    ap (λ l. off ∷ l)
      (starts-snoc (off + length (record_of x)) xs e
        ∙ ap (λ n. starts (off + length (record_of x)) xs ++ n ∷ [])
            (omega (arith, length-append (record_of x) (encode_all xs))))

pub take-starts : (n off : ℕ) (es : List Entry) → take n (starts off es) ≡ starts off (take n es)
unfolding starts
take-starts zero off es = refl
take-starts (suc n) off [] = refl
take-starts (suc n) off (e ∷ es) = ap (λ l. off ∷ l) (take-starts n (off + length (record_of e)) es)

-- The offset of an entry is the length of the records before it.
pub get_or-starts :
    (n off : ℕ) (es : List Entry)
    → n < length es
    → get_or (starts off es) n 0 ≡ off + length (encode_all (take n es))
unfolding encode_all starts
get_or-starts n off [] h = absurd (omega arith)
get_or-starts zero off (e ∷ es) h = omega arith
get_or-starts (suc n) off (e ∷ es) h =
    get_or-starts n (off + length (record_of e)) es (omega arith)
    ∙ omega (arith, length-append (record_of e) (encode_all (take n es)))

pub take-encode_all :
    (n : ℕ) (es : List Entry)
    → take (length (encode_all (take n es))) (encode_all es) ≡ encode_all (take n es)
take-encode_all n es =
    ap (λ x. take (length (encode_all (take n es))) x)
      (ap encode_all (sym (take-append-drop n es)) ∙ encode_all-append (take n es) (drop n es))
    ∙ take-append_length (encode_all (take n es)) _ _ refl

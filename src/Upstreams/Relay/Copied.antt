-- ===== src/Upstreams/Relay/Copied.antt =====
-- upstreams/proxy_to_upstream/relay.rs, `copy_counted`: one direction.
use mathlib.Core.List.{append_assoc, append-nil}
use tls_proxy_tunnel.Base.{
  ℕ, ◌+◌, ◌%◌, ◌^◌, ◌<◌, ◌≡◌, refl, sym, ap, ◌∙◌, subst, Bool, true, false, List, [], ◌∷◌, ◌++◌,
  arith, length, length-append, take,
}
use tls_proxy_tunnel.Utf8.{Bytes}
use tls_proxy_tunnel.Upstreams.Relay.{
  new_copy, Copy, CopyEvent, chunk, read_error, write_error, add_u64, finish, copy_round, copy_step,
  copy_counted,
}

-- The chunks that were written whole, up to the first event that ends the loop.
abbrev pub full_chunks : List CopyEvent → Bytes
full_chunks [] = []
full_chunks (chunk [] ∷ es) = []
full_chunks (chunk (b ∷ bs) ∷ es) = (b ∷ bs) ++ full_chunks es
full_chunks (read_error ∷ es) = []
full_chunks (write_error bs k ∷ es) = []

-- The beginning of a chunk at which the writer failed, if that is how the loop ends.
abbrev pub partial_chunk : List CopyEvent → Bytes
partial_chunk [] = []
partial_chunk (chunk [] ∷ es) = []
partial_chunk (chunk (b ∷ bs) ∷ es) = partial_chunk es
partial_chunk (read_error ∷ es) = []
partial_chunk (write_error bs k ∷ es) = take k bs

abbrev pub ends : List CopyEvent → Bool
ends [] = false
ends (chunk [] ∷ es) = true
ends (chunk (b ∷ bs) ∷ es) = ends es
ends (read_error ∷ es) = true
ends (write_error bs k ∷ es) = true

copy_step_returned : (c : Copy) (e : CopyEvent) → c.returned ≡ true → copy_step c e ≡ c
unfolding copy_step
copy_step_returned c e h = ground arith

copy_step_running : (c : Copy) (e : CopyEvent) → c.returned ≡ false → copy_step c e ≡ copy_round c e
unfolding copy_step
copy_step_running c e h = ground arith

pub copy_counted_returned :
    (c : Copy) (es : List CopyEvent) → c.returned ≡ true → copy_counted c es ≡ c
unfolding copy_counted
copy_counted_returned c [] h = refl
copy_counted_returned c (e ∷ es) h =
    ap (λ d. copy_counted d es) (copy_step_returned c e h) ∙ copy_counted_returned c es h

-- An event that ends the loop decides the result.
copy_counted_ended :
    (c : Copy) (e : CopyEvent) (es : List CopyEvent)
    → c.returned ≡ false
    → (copy_round c e).returned ≡ true
    → copy_counted c (e ∷ es) ≡ copy_round c e
unfolding copy_counted
copy_counted_ended c e es r h =
    ap (λ d. copy_counted d es) (copy_step_running c e r)
    ∙ copy_counted_returned (copy_round c e) es h

-- What a copy has done beyond an earlier state.
record IsCopied (c d : Copy) (es : List CopyEvent) : Type 0 where
  written : d.written ≡ c.written ++ (full_chunks es ++ partial_chunk es)
  total : d.total ≡ (c.total + length (full_chunks es)) % 2 ^ 64
  counter : d.counter ≡ (c.counter + length (full_chunks es)) % 2 ^ 64
  pub returned : d.returned ≡ ends es
  pub shut_down : d.shut_down ≡ ends es

-- The sums that a whole chunk leaves for the rest.
add_u64-length :
    (a : ℕ) (xs ys : Bytes)
    → (add_u64 a (length xs) + length ys) % 2 ^ 64 ≡ (a + length (xs ++ ys)) % 2 ^ 64
add_u64-length a xs ys = omega (arith, length-append xs ys)

IsCopied-ended :
    (c : Copy) (e : CopyEvent) (es : List CopyEvent)
    → c.returned ≡ false
    → (copy_round c e).returned ≡ true
    → IsCopied c (copy_round c e) (e ∷ es)
    → IsCopied c (copy_counted c (e ∷ es)) (e ∷ es)
IsCopied-ended c e es r h x =
    subst (λ d. IsCopied c d (e ∷ es)) (sym (copy_counted_ended c e es r h)) x

copy_counted-IsCopied :
    (c : Copy) (es : List CopyEvent)
    → c.returned ≡ false
    → c.shut_down ≡ false
    → c.total < 2 ^ 64
    → c.counter < 2 ^ 64
    → IsCopied c (copy_counted c es) es
unfolding copy_counted copy_round finish
copy_counted-IsCopied c [] r s t k = record {
  written = sym (append-nil c.written);
  total = omega arith;
  counter = omega arith;
  returned = r;
  shut_down = s;
}
copy_counted-IsCopied c (chunk [] ∷ es) r s t k = IsCopied-ended c (chunk []) es r refl (record {
  written = sym (append-nil c.written);
  total = omega arith;
  counter = omega arith;
  returned = refl;
  shut_down = refl;
})
copy_counted-IsCopied c (chunk (b ∷ bs) ∷ es) r s t k =
    let d = copy_round c (chunk (b ∷ bs)) in
    let rest = copy_counted-IsCopied d es r s (omega arith) (omega arith) in
    subst (λ d. IsCopied c (copy_counted d es) (chunk (b ∷ bs) ∷ es))
      (sym (copy_step_running c (chunk (b ∷ bs)) r))
      (record {
        written = rest.written ∙ simp append_assoc;
        total = rest.total ∙ add_u64-length c.total (b ∷ bs) (full_chunks es);
        counter = rest.counter ∙ add_u64-length c.counter (b ∷ bs) (full_chunks es);
        returned = rest.returned;
        shut_down = rest.shut_down;
      })
copy_counted-IsCopied c (read_error ∷ es) r s t k = IsCopied-ended c read_error es r refl (record {
  written = sym (append-nil c.written);
  total = omega arith;
  counter = omega arith;
  returned = refl;
  shut_down = refl;
})
copy_counted-IsCopied c (write_error bs n ∷ es) r s t k =
    IsCopied-ended c (write_error bs n) es r refl (record {
      written = refl;
      total = omega arith;
      counter = omega arith;
      returned = refl;
      shut_down = refl;
    })

-- The bytes of a direction, as its `u64` counter has them.
abbrev pub counted : List CopyEvent → ℕ
counted es = length (full_chunks es) % 2 ^ 64

-- What a copy from its start has done.
pub record IsCopy (d : Copy) (es : List CopyEvent) : Type 0 where
  pub written : d.written ≡ full_chunks es ++ partial_chunk es
  pub total : d.total ≡ counted es
  pub counter : d.counter ≡ counted es
  pub returned : d.returned ≡ ends es
  pub shut_down : d.shut_down ≡ ends es

pub copy_counted-IsCopy : (es : List CopyEvent) → IsCopy (copy_counted new_copy es) es
copy_counted-IsCopy es =
    let c = copy_counted-IsCopied new_copy es refl refl (omega arith) (omega arith) in
    record {
      written = c.written;
      total = c.total ∙ omega arith;
      counter = c.counter ∙ omega arith;
      returned = c.returned;
      shut_down = c.shut_down;
    }

-- ===== src/Factory/Live.antt =====
-- The open buffers and readers of an SSRC, over sequences of calls.
use sample_nodejs_server.Prelude.{
  ℕ, suc, ◌<◌, ◌≡◌, ◌≢◌, ◌⊎◌, inl, inr, refl, sym, ap, ◌∙◌, Bool, true, false, List, [], ◌∷◌,
  Option, none, some, arith, ◌==◌, if_elim, Bool-cases, eq→==, ne→==, ==→eq, ==→ne,
}
use sample_nodejs_server.Factory.{
  Reader, Readers, Factory, PacketType, rtcp_buffer_packet, rtp_buffer_packet, put, no_readers,
  new_buffer_factory, or_new, get_in, get_or_new, end_reader, close_reader, close_buffer,
}

-- The map has open objects, under their SSRC, and every open object.
pub record IsValid (r : Readers) : Type 0 where
  pub below : (ssrc n : ℕ) → r.map ssrc ≡ some n → n < r.next
  pub mapped :
      (ssrc n : ℕ)
      → r.map ssrc ≡ some n
      → ((r.objects n).closed ≡ false) × ((r.objects n).ssrc ≡ ssrc)
  pub kept : (n : ℕ) → (r.objects n).closed ≡ false → r.map (r.objects n).ssrc ≡ some n

at_same {ℓ} : {A : Type ℓ} (f : ℕ → A) (i : ℕ) (v : A) → put f i v i ≡ v
at_same f i v = rw (eq→== i i refl) refl

at_other {ℓ} : {A : Type ℓ} (f : ℕ → A) (i j : ℕ) (v : A) → j ≢ i → put f i v j ≡ f j
at_other f i j v ne = rw (ne→== j i ne) refl

order : (i j : ℕ) → (i ≡ j) ⊎ (i ≢ j)
order i j = elim (Bool-cases (i == j)) [
  | inl same ↦ inl (==→eq i j same)
  | inr other ↦ inr (==→ne i j other)
]

some_injective : (m n : ℕ) → some m ≡ some n → m ≡ n
some_injective m n h = cc

no_some : (n : ℕ) → ¬ (none ≡ some n)
no_some n h = cc

or_new-IsValid :
    (r : Readers) (ssrc : ℕ) (o : Option ℕ)
    → r.map ssrc ≡ o
    → IsValid r
    → IsValid (or_new r ssrc o).0
or_new-IsValid r ssrc (some n) h v = v
or_new-IsValid r ssrc none h v = record {
  below = λ j n has. elim (order j ssrc) [
    | inl same ↦
        let e : r.next ≡ n =
          some_injective r.next n (sym (at_same r.map ssrc (some r.next)) ∙ (rw same at has)) in
        omega (arith, e)
    | inr other ↦
        let lt = v.below j n (sym (at_other r.map ssrc j (some r.next) other) ∙ has) in
        omega (arith, lt)
  ];
  mapped = λ j n has. elim (order j ssrc) [
    | inl same ↦
        let e : r.next ≡ n =
          some_injective r.next n (sym (at_same r.map ssrc (some r.next)) ∙ (rw same at has)) in
        let it = at_same r.objects r.next (record { ssrc = ssrc; closed = false }) in
        rw (sym e) (ap (λ c. c.closed) it, ap (λ c. c.ssrc) it ∙ sym same)
    | inr other ↦
        let old = sym (at_other r.map ssrc j (some r.next) other) ∙ has in
        let lt = v.below j n old in
        let it =
          at_other r.objects r.next n (record { ssrc = ssrc; closed = false })
            (λ e. omega (arith, e, lt)) in
        let (x, y) = v.mapped j n old in (ap (λ c. c.closed) it ∙ x, ap (λ c. c.ssrc) it ∙ y)
  ];
  kept = λ n live. elim (order n r.next) [
    | inl same ↦
        let it = at_same r.objects r.next (record { ssrc = ssrc; closed = false }) in
        rw same (
          ap (λ i. put r.map ssrc (some r.next) i) (ap (λ c. c.ssrc) it)
          ∙ at_same r.map ssrc (some r.next))
    | inr other ↦
        let it = at_other r.objects r.next n (record { ssrc = ssrc; closed = false }) other in
        let has = v.kept n (ap (λ c. c.closed) (sym it) ∙ live) in
        ap (λ i. put r.map ssrc (some r.next) i) (ap (λ c. c.ssrc) it)
        ∙ (at_other r.map ssrc (r.objects n).ssrc (some r.next)
              (λ e. no_some n (sym h ∙ (ap r.map (sym e) ∙ has)))
            ∙ has)
  ];
}

end_reader-IsValid :
    (r : Readers) (n : ℕ) → (r.objects n).closed ≡ false → IsValid r → IsValid (end_reader r n)
unfolding end_reader
end_reader-IsValid r n open_one v =
    let s = (r.objects n).ssrc in
    let gone : Reader = record (r.objects n) { closed = true } in
    let mine = v.kept n open_one in
    record {
      below = λ j m has. elim (order j s) [
        | inl same ↦ absurd (no_some m (sym (at_same r.map s none) ∙ (rw same at has)))
        | inr other ↦ v.below j m (sym (at_other r.map s j none other) ∙ has)
      ];
      mapped = λ j m has. elim (order j s) [
        | inl same ↦ absurd (no_some m (sym (at_same r.map s none) ∙ (rw same at has)))
        | inr other ↦
            let old = sym (at_other r.map s j none other) ∙ has in
            let (x, y) = v.mapped j m old in
            let it =
              at_other r.objects n m gone (λ e. other (sym y ∙ ap (λ i. (r.objects i).ssrc) e)) in
            (ap (λ c. c.closed) it ∙ x, ap (λ c. c.ssrc) it ∙ y)
      ];
      kept = λ m live. elim (order m n) [
        | inl same ↦ absurd (shut (ap (λ c. c.closed) (at_same r.objects n gone)) (rw same at live))
        | inr other ↦
            let it = at_other r.objects n m gone other in
            let has = v.kept m (ap (λ c. c.closed) (sym it) ∙ live) in
            ap (λ i. put r.map s none i) (ap (λ c. c.ssrc) it)
            ∙ (at_other r.map s (r.objects m).ssrc none
                  (λ e. other (some_injective m n (sym has ∙ (ap r.map e ∙ mine))))
                ∙ has)
      ];
    }
  where
    shut : {b : Bool} → b ≡ true → ¬ (b ≡ false)
    shut x y = cc

-- What is called, in order.
pub data Op : Type 0 where
  get : PacketType → ℕ → Op
  end_of_reader : ℕ → Op
  end_of_buffer : ℕ → Op

abbrev pub run : Factory → List Op → Factory
run f [] = f
run f (get kind ssrc ∷ ops) = run (get_or_new f kind ssrc).0 ops
run f (end_of_reader n ∷ ops) = run (close_reader f n) ops
run f (end_of_buffer n ∷ ops) = run (close_buffer f n) ops

close_buffer-IsValid :
    (f : Factory) (n : ℕ) → IsValid f.rtp_buffers → IsValid (close_buffer f n).rtp_buffers
unfolding close_buffer
close_buffer-IsValid f n v =
    if_elim (λ (g : Factory). IsValid g.rtp_buffers) (f.rtp_buffers.objects n).closed (λ _. v)
      (λ live. end_reader-IsValid f.rtp_buffers n live v)

run-IsValid :
    (f : Factory) (ops : List Op) → IsValid f.rtp_buffers → IsValid (run f ops).rtp_buffers
unfolding get_or_new get_in close_reader
run-IsValid f [] v = v
run-IsValid f (get rtcp_buffer_packet ssrc ∷ ops) v =
    run-IsValid (get_or_new f rtcp_buffer_packet ssrc).0 ops v
run-IsValid f (get rtp_buffer_packet ssrc ∷ ops) v =
    run-IsValid (get_or_new f rtp_buffer_packet ssrc).0 ops
      (or_new-IsValid f.rtp_buffers ssrc (f.rtp_buffers.map ssrc) refl v)
run-IsValid f (end_of_reader n ∷ ops) v = run-IsValid (close_reader f n) ops v
run-IsValid f (end_of_buffer n ∷ ops) v =
    run-IsValid (close_buffer f n) ops (close_buffer-IsValid f n v)

new-IsValid : IsValid no_readers
new-IsValid = record {
  below = λ ssrc n has. absurd (no_some n has);
  mapped = λ ssrc n has. absurd (no_some n has);
  kept = λ n live. absurd (no_object live);
}
  where
    no_object : ¬ (true ≡ false)
    no_object h = cc

-- After any calls on a new factory, in any order and with objects closed again: two open buffers of
-- the same SSRC are the same one, and it is the one that the factory gives for the SSRC.
pub one_buffer :
    (ops : List Op) (m n : ℕ)
    → let f = run new_buffer_factory ops in
      (f.rtp_buffers.objects m).closed ≡ false
      → (f.rtp_buffers.objects n).closed ≡ false
      → (f.rtp_buffers.objects m).ssrc ≡ (f.rtp_buffers.objects n).ssrc
      → (m ≡ n) × ((get_or_new f rtp_buffer_packet (f.rtp_buffers.objects n).ssrc).1 ≡ n)
unfolding get_or_new get_in
one_buffer ops m n open_m open_n same =
    let f = run new_buffer_factory ops in
    let r = f.rtp_buffers in
    let v = run-IsValid new_buffer_factory ops new-IsValid in
    let has_m = v.kept m open_m in
    let has_n = v.kept n open_n in
    (
      some_injective m n (sym has_m ∙ (ap r.map same ∙ has_n)),
      ap (λ o. (or_new r (r.objects n).ssrc o).1) has_n,
    )

-- A new object for the SSRC, behind the others.
record IsNew (r : Readers) (ssrc : ℕ) (p : Readers × ℕ) : Type 0 where
  number : p.1 ≡ r.next
  following : p.0.next ≡ suc r.next
  its_ssrc : (p.0.objects p.1).ssrc ≡ ssrc
  is_open : (p.0.objects p.1).closed ≡ false
  others : (m : ℕ) → m ≢ r.next → p.0.objects m ≡ r.objects m

or_new-IsNew : (r : Readers) (ssrc : ℕ) → IsNew r ssrc (or_new r ssrc none)
or_new-IsNew r ssrc =
    let new : Reader = record { ssrc = ssrc; closed = false } in
    record {
      number = refl;
      following = refl;
      its_ssrc = ap (λ c. c.ssrc) (at_same r.objects r.next new);
      is_open = ap (λ c. c.closed) (at_same r.objects r.next new);
      others = λ m ne. at_other r.objects r.next m new ne;
    }

get_in-IsNew : (r : Readers) (ssrc : ℕ) → r.map ssrc ≡ none → IsNew r ssrc (get_in r ssrc)
unfolding get_in
get_in-IsNew r ssrc h = rw h (or_new-IsNew r ssrc)

map-end_reader :
    (r : Readers) (n ssrc : ℕ) → (r.objects n).ssrc ≡ ssrc → (end_reader r n).map ssrc ≡ none
unfolding end_reader
map-end_reader r n ssrc h = rw h (at_same r.map ssrc none)

-- A reader of feedback is asked for an SSRC that has none, and closed; another is asked for, and the
-- first is closed once more. The next one that is asked for is a third, while the second is open.
pub two_readers :
    (f : Factory) (ssrc : ℕ)
    → f.rtcp_readers.map ssrc ≡ none
    → let (a, first) = get_or_new f rtcp_buffer_packet ssrc in
      let (b, second) = get_or_new (close_reader a first) rtcp_buffer_packet ssrc in
      let (c, third) = get_or_new (close_reader b first) rtcp_buffer_packet ssrc in
      (second ≢ third)
      × (((c.rtcp_readers.objects second).closed ≡ false)
          × ((c.rtcp_readers.objects third).closed ≡ false))
unfolding get_or_new close_reader
two_readers f ssrc free =
    let r = f.rtcp_readers in
    let (a, first) = get_in r ssrc in
    let e = get_in-IsNew r ssrc free in
    let (b, second) = get_in (end_reader a first) ssrc in
    let g = get_in-IsNew (end_reader a first) ssrc (map-end_reader a first ssrc e.its_ssrc) in
    let second_is : second ≡ a.next = g.number in
    let apart : second ≢ first = λ h. omega (arith, h, e.number, e.following, second_is) in
    let old : (b.objects first).ssrc ≡ ssrc =
      ap (λ c. c.ssrc) (g.others first (λ h. apart (second_is ∙ sym h)))
      ∙ (ap (λ c. c.ssrc) (at_same a.objects first (record (a.objects first) { closed = true }))
          ∙ e.its_ssrc) in
    let (c, third) = get_in (end_reader b first) ssrc in
    let k = get_in-IsNew (end_reader b first) ssrc (map-end_reader b first ssrc old) in
    let third_is : third ≡ b.next = k.number in
    let next_is : b.next ≡ suc a.next = g.following in
    let different : second ≢ third = λ h. omega (arith, h, second_is, third_is, next_is) in
    let kept_second =
      k.others second (λ h. different (h ∙ sym third_is))
      ∙ at_other b.objects first second (record (b.objects first) { closed = true }) apart in
    (different, (ap (λ c. c.closed) kept_second ∙ g.is_open, k.is_open))

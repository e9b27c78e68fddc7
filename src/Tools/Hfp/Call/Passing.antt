-- ===== src/Tools/Hfp/Call/Passing.antt =====
-- When `main` of src/bin/floss_hfp_smoke.rs succeeds.
use dorsche.Base.{
  ℕ, ◌≡◌, ◌↔◌, refl, Bool, true, false, List, All, ensure-then_iff, then_iff, wrong_codec, ◌>>◌,
  ◌&&◌, ◌==◌, ap, bind_passed, and_iff, ==_iff, Result, ok, err, arith,
}
use dorsche.Tools.Hfp.{Codec, expected_bit}
use dorsche.Tools.Hfp.Stats.{Silence, IsByte, account_all, default_stats, check_capture}
use dorsche.Tools.Hfp.Stats.Measured.{account-check_capture}
use dorsche.Tools.Hfp.Call.{
  Answers, connect_sco_uipc, exchange_pcm, after_codecs, after_status, stop_sco, finish,
  after_answer, after_pair, after_active, after_proxy, run_main,
}

-- Every step of the call succeeds, with the wanted codec, a clean stop and a sound on the microphone.
pub record Passes (wanted : Codec) (e : Answers) : Type 0 where
  pub proxy : e.proxy ≡ ok tt
  pub active : e.active ≡ ok tt
  pub start_pair : e.start_pair ≡ ok tt
  pub start_call : e.start_call ≡ ok true
  pub start_status : e.start_status ≡ ok (expected_bit wanted)
  pub final_codecs : e.final_codecs ≡ ok (expected_bit wanted)
  pub connected : connect_sco_uipc 150 0 e ≡ ok tt
  pub heard : (reads : List (List ℕ)) × (e.exchange ≡ ok reads) × (¬ All Silence reads)
  pub write_capture : e.write_capture ≡ ok tt
  pub stop_pair : e.stop_pair ≡ ok tt
  pub stop_call : e.stop_call ≡ ok tt
  pub stop_status : e.stop_status ≡ ok 0

-- What is read are bytes.
abbrev pub ReadsBytes : Answers → Type 0
ReadsBytes e = (reads : List (List ℕ)) → e.exchange ≡ ok reads → All (All IsByte) reads

ok-inj : {m n : ℕ} → ok m ≡ ok n → m ≡ n
ok-inj q = cc

finish_iff :
    (t : Result (Unit {0})) (r : Result ℕ) → (finish t r ≡ ok tt) ↔ ((t ≡ ok tt) × (r ≡ ok 0))
unfolding finish
finish_iff (err x) r = ((λ h. cc), (λ h. cc))
finish_iff (ok u) (err x) = ((λ h. cc), (λ h. cc))
finish_iff (ok u) (ok n) = ground arith

stop_sco_iff :
    (e : Answers) (r : Result (Unit {0}))
    → ((stop_sco e r).0 ≡ ok 0) ↔ ((r ≡ ok tt) × (e.stop_call ≡ ok tt) × (e.stop_status ≡ ok 0))
unfolding stop_sco
stop_sco_iff e (err x) = ((λ h. cc), (λ h. cc))
stop_sco_iff e (ok u) = (
  (λ h. let (v, a, c) = bind_passed e.stop_call (λ v. e.stop_status) h in (refl, a, c)),
  (λ (a, b, c). rw b c),
)

exchange_pcm_iff :
    (e : Answers)
    → ReadsBytes e
    → (exchange_pcm e ≡ ok tt) ↔ (
        ((reads : List (List ℕ)) × (e.exchange ≡ ok reads) × (¬ All Silence reads))
        × (e.write_capture ≡ ok tt))
unfolding exchange_pcm
exchange_pcm_iff e b = (
  (λ h.
      let (reads, q, rest) = bind_passed e.exchange _ h in
      let (accepted, written) =
        (then_iff (check_capture (account_all reads default_stats)) e.write_capture).0 rest in
      let (bytes, samples, peak, heard) = account-check_capture reads (b reads q) in
      ((reads, q, heard.0 accepted), written)),
  (λ (sound, written).
      let (reads, q, loud) = sound in
      let (bytes, samples, peak, heard) = account-check_capture reads (b reads q) in
      rw q (
        (then_iff (check_capture (account_all reads default_stats)) e.write_capture).1
          (heard.1 loud, written))),
)

after_codecs_iff :
    (wanted : Codec) (e : Answers) (codec : ℕ) (r : Result ℕ)
    → (after_codecs wanted e codec r ≡ ok tt) ↔ (
        (codec ≡ expected_bit wanted)
        × (r ≡ ok (expected_bit wanted))
        × (connect_sco_uipc 150 0 e ≡ ok tt)
        × (exchange_pcm e ≡ ok tt))
unfolding after_codecs
after_codecs_iff wanted e codec (err x) = ((λ h. cc), (λ h. cc))
after_codecs_iff wanted e codec (ok r) =
    let tests = and_iff (codec == expected_bit wanted) (r == expected_bit wanted) in
    let one =
      ensure-then_iff (codec == expected_bit wanted && r == expected_bit wanted) wrong_codec
        (connect_sco_uipc 150 0 e >> exchange_pcm e) in
    let two = then_iff (connect_sco_uipc 150 0 e) (exchange_pcm e) in
    (
      (λ h.
          let (t, rest) = one.0 h in
          let (a, b) = tests.0 t in
          let (c, x) = two.0 rest in
          (
            (==_iff codec (expected_bit wanted)).0 a,
            ap ok ((==_iff r (expected_bit wanted)).0 b),
            c,
            x,
          )),
      (λ (a, b, c, x). one.1 (
        tests.1 (
          (==_iff codec (expected_bit wanted)).1 a,
          (==_iff r (expected_bit wanted)).1 (ok-inj b),
        ),
        two.1 (c, x),
      )),
    )

after_status_iff :
    (wanted : Codec) (e : Answers) (r : Result ℕ)
    → ((after_status wanted e r).0 ≡ ok tt) ↔ (
        (r ≡ ok (expected_bit wanted))
        × (e.final_codecs ≡ ok (expected_bit wanted))
        × (connect_sco_uipc 150 0 e ≡ ok tt)
        × (exchange_pcm e ≡ ok tt))
unfolding after_status
after_status_iff wanted e (err x) = ((λ h. cc), (λ h. cc))
after_status_iff wanted e (ok codec) =
    let i = after_codecs_iff wanted e codec e.final_codecs in
    (
      (λ h. let (a, b, c, x) = i.0 h in (ap ok a, b, c, x)),
      (λ (a, b, c, x). i.1 (ok-inj a, b, c, x)),
    )

after_answer_iff :
    (wanted : Codec) (e : Answers) (r : Result Bool)
    → ((after_answer wanted e r).0 ≡ ok tt) ↔ (
        (r ≡ ok true)
        × ((after_status wanted e e.start_status).0 ≡ ok tt)
        × ((stop_sco e e.stop_pair).0 ≡ ok 0))
unfolding after_answer
after_answer_iff wanted e (err x) = ((λ h. cc), (λ h. cc))
after_answer_iff wanted e (ok false) = ((λ h. cc), (λ h. cc))
after_answer_iff wanted e (ok true) =
    let i = finish_iff (after_status wanted e e.start_status).0 (stop_sco e e.stop_pair).0 in
    ((λ h. let (t, u) = i.0 h in (refl, t, u)), (λ (q, t, u). i.1 (t, u)))

after_pair_iff :
    (wanted : Codec) (e : Answers) (r : Result (Unit {0}))
    → ((after_pair wanted e r).0 ≡ ok tt)
      ↔ ((r ≡ ok tt) × ((after_answer wanted e e.start_call).0 ≡ ok tt))
unfolding after_pair
after_pair_iff wanted e (err x) = ((λ h. cc), (λ h. cc))
after_pair_iff wanted e (ok u) = ((λ h. (refl, h)), (λ h. h.1))

after_active_iff :
    (wanted : Codec) (e : Answers) (r : Result (Unit {0}))
    → ((after_active wanted e r).0 ≡ ok tt)
      ↔ ((r ≡ ok tt) × ((after_pair wanted e e.start_pair).0 ≡ ok tt))
unfolding after_active
after_active_iff wanted e (err x) = ((λ h. cc), (λ h. cc))
after_active_iff wanted e (ok u) = ((λ h. (refl, h)), (λ h. h.1))

after_proxy_iff :
    (wanted : Codec) (e : Answers) (r : Result (Unit {0}))
    → ((after_proxy wanted e r).0 ≡ ok tt)
      ↔ ((r ≡ ok tt) × ((after_active wanted e e.active).0 ≡ ok tt))
unfolding after_proxy
after_proxy_iff wanted e (err x) = ((λ h. cc), (λ h. cc))
after_proxy_iff wanted e (ok u) = ((λ h. (refl, h)), (λ h. h.1))

-- `main` succeeds exactly when every step that it takes succeeds: Floss accepts the call and reports the
-- wanted codec twice, the data socket is reached in time, some whole sample from the microphone is
-- not zero, the capture is written and the call stops with status 0. What is read are bytes.
pub run_main-Passes :
    (wanted : Codec) (e : Answers)
    → ReadsBytes e
    → ((run_main wanted e).0 ≡ ok tt) ↔ Passes wanted e
unfolding run_main
run_main-Passes wanted e b =
    let proxy = after_proxy_iff wanted e e.proxy in
    let active = after_active_iff wanted e e.active in
    let pair = after_pair_iff wanted e e.start_pair in
    let start = after_answer_iff wanted e e.start_call in
    let status = after_status_iff wanted e e.start_status in
    let stop = stop_sco_iff e e.stop_pair in
    let exchange = exchange_pcm_iff e b in
    (
      (λ h.
          let (h_proxy, h1) = proxy.0 h in
          let (h_active, h2) = active.0 h1 in
          let (h_pair, h3) = pair.0 h2 in
          let (h_call, h4, h5) = start.0 h3 in
          let (h_status, h_final, h_connected, h6) = status.0 h4 in
          let (h_stop_pair, h_stop_call, h_stop_status) = stop.0 h5 in
          let (h_heard, h_written) = exchange.0 h6 in
          record {
            proxy = h_proxy;
            active = h_active;
            start_pair = h_pair;
            start_call = h_call;
            start_status = h_status;
            final_codecs = h_final;
            connected = h_connected;
            heard = h_heard;
            write_capture = h_written;
            stop_pair = h_stop_pair;
            stop_call = h_stop_call;
            stop_status = h_stop_status;
          }),
      (λ p.
          let tested =
            status.1 (
              p.start_status,
              p.final_codecs,
              p.connected,
              exchange.1 (p.heard, p.write_capture),
            ) in
          let stopped = stop.1 (p.stop_pair, p.stop_call, p.stop_status) in
          proxy.1 (
            p.proxy,
            active.1 (p.active, pair.1 (p.start_pair, start.1 (p.start_call, tested, stopped))),
          )),
    )

-- ===== src/Wireless/PipeWire/Node/Published.antt =====
-- Which nodes src/wireless/pipewire.rs publishes.
use dorsche.Base.{
  ℕ, ◌*◌, ◌/◌, ◌≡◌, ◌≤◌, refl, sym, ap, subst, inl, inr, true, false, none, some, Error, Result, ok,
  err, ◌>>◌, ◌>>=◌, String, leb, if◌then◌else◌, IsAnyOf, arith,
}
use dorsche.Wireless.Types.Pcm.{
  PcmConfiguration, validate, validate_iff, IsSupported, sample_widths,
}
use dorsche.Wireless.PipeWire.{bytes_per_frame}
use dorsche.Wireless.PipeWire.Node.{
  AudioFormat, s16_le, s24_le, s32_le, AudioInfo, audio_source, audio_sink, Node, Server,
  audio_format, format_pod, after_pod, listen_and_run, with_stride, probe_server, run_source,
  run_sink,
}

-- The little-endian format of a width.
abbrev pub format_of : ℕ → AudioFormat
format_of bits = if leb bits 16 then s16_le else if leb bits 24 then s24_le else s32_le

abbrev pub info_of : PcmConfiguration → AudioInfo
info_of pcm = record {
  format = format_of pcm.bits_per_sample;
  rate = pcm.sample_rate_hz;
  channels = pcm.channels;
}

-- The check of the configuration and the eight calls, each only if all before it succeed.
abbrev pub publish_node : Server → PcmConfiguration → Node → Result Node
publish_node s pcm node =
    validate pcm
    >> (s.main_loop
        >> (s.context
            >> (s.core
                >> (s.stream
                    >> (s.register >> (s.serialize >> (s.decode >> (s.connect >> ok node))))))))

abbrev Widths : ℕ → Type 0
Widths bits = (audio_format bits ≡ some (format_of bits)) × (2 ≤ bits / 8) × (bits / 8 ≤ 4)

IsAnyOf-Widths : (bits : ℕ) → IsAnyOf sample_widths bits → Widths bits
IsAnyOf-Widths bits (inl e) = subst Widths (sym e) (refl, omega arith, omega arith)
IsAnyOf-Widths bits (inr (inl e)) = subst Widths (sym e) (refl, omega arith, omega arith)
IsAnyOf-Widths bits (inr (inr (inl e))) = subst Widths (sym e) (refl, omega arith, omega arith)
IsAnyOf-Widths bits (inr (inr (inr e))) = absurd e

module _ (s : Server) (pcm : PcmConfiguration) (node : AudioInfo → Node) where
  pod_chain :
      (serialize decode connect : Result (Unit {0})) (info : AudioInfo)
      → (serialize >> ok info) >>= (λ i. decode >> (connect >> ok (node i)))
        ≡ (serialize >> (decode >> (connect >> ok (node info))))
  pod_chain (err e) decode connect info = refl
  pod_chain (ok _) decode connect info = refl

  listen_chain :
      (a b c d e : Result (Unit {0})) (rest : Result Node)
      → after_pod s node (format_pod s pcm) ≡ some rest
      → listen_and_run s pcm node (a >> (b >> (c >> (d >> e))))
        ≡ some (a >> (b >> (c >> (d >> (e >> rest)))))
  listen_chain (err x) b c d e rest h = refl
  listen_chain (ok _) (err x) c d e rest h = refl
  listen_chain (ok _) (ok _) (err x) d e rest h = refl
  listen_chain (ok _) (ok _) (ok _) (err x) e rest h = refl
  listen_chain (ok _) (ok _) (ok _) (ok _) (err x) rest h = refl
  listen_chain (ok _) (ok _) (ok _) (ok _) (ok _) rest h = h

  pod_published :
      audio_format pcm.bits_per_sample ≡ some (format_of pcm.bits_per_sample)
      → after_pod s node (format_pod s pcm)
        ≡ some (s.serialize >> (s.decode >> (s.connect >> ok (node (info_of pcm)))))
  unfolding format_pod
  pod_published f = rw f (ap some (pod_chain s.serialize s.decode s.connect (info_of pcm)))

stride_chain :
    (s : Server) (name : String) (pcm : PcmConfiguration) (stride : ℕ) (a b c : Result (Unit {0}))
    (rest : Result Node)
    → with_stride s name pcm (ok stride) ≡ some rest
    → with_stride s name pcm (a >> (b >> (c >> ok stride))) ≡ some (a >> (b >> (c >> rest)))
stride_chain s name pcm stride (err x) b c rest h = refl
stride_chain s name pcm stride (ok _) (err x) c rest h = refl
stride_chain s name pcm stride (ok _) (ok _) (err x) rest h = refl
stride_chain s name pcm stride (ok _) (ok _) (ok _) rest h = h

stride_of :
    (pcm : PcmConfiguration)
    → IsSupported pcm
    → Widths pcm.bits_per_sample
    → bytes_per_frame pcm ≡ ok (pcm.bits_per_sample / 8 * pcm.channels)
unfolding bytes_per_frame
stride_of pcm h (_, low, high) =
    let least : 1 * 1 ≤ pcm.bits_per_sample / 8 * pcm.channels =
      grind (arith, low, h.channels_low) in
    let most : pcm.bits_per_sample / 8 * pcm.channels ≤ 4 * 8 =
      grind (arith, high, h.channels_high) in
    ground (arith, least, most)

abbrev pub source_node : String → PcmConfiguration → Node
source_node name pcm = record {
  name = name;
  class = audio_source;
  realtime = true;
  stride = some (pcm.bits_per_sample / 8 * pcm.channels);
  info = info_of pcm;
}

abbrev pub sink_node : String → PcmConfiguration → Node
sink_node name pcm = record {
  name = name;
  class = audio_sink;
  realtime = true;
  stride = none;
  info = info_of pcm;
}

abbrev pub probe_node : PcmConfiguration → Node
probe_node pcm = record {
  name = "dorsche.pipewire.probe";
  class = audio_source;
  realtime = false;
  stride = none;
  info = info_of pcm;
}

-- What the three functions come to.
abbrev pub Publishes : Server → String → PcmConfiguration → Type 0
Publishes s name pcm =
    (probe_server s pcm ≡ some (publish_node s pcm (probe_node pcm)))
    × (run_source s name pcm ≡ some (publish_node s pcm (source_node name pcm)))
    × (run_sink s name pcm ≡ some (publish_node s pcm (sink_node name pcm)))

chained :
    (s : Server) (name : String) (pcm : PcmConfiguration) → IsSupported pcm → Publishes s name pcm
unfolding probe_server run_source run_sink
chained s name pcm h =
    let widths = IsAnyOf-Widths pcm.bits_per_sample h.width in
    let valid : validate pcm ≡ ok tt = (validate_iff pcm).1 h in
    rw (valid, stride_of pcm h widths)
      (
        listen_chain s pcm _ s.main_loop s.context s.core s.stream s.register _
            (pod_published s pcm _ widths.0),
        stride_chain s name pcm _ s.main_loop s.context s.core _ (
            listen_chain s pcm _ (ok tt) (ok tt) (ok tt) s.stream s.register _
              (pod_published s pcm _ widths.0)),
        listen_chain s pcm _ s.main_loop s.context s.core s.stream s.register _
            (pod_published s pcm _ widths.0),
      )

refused :
    (s : Server) (name : String) (pcm : PcmConfiguration) (e : Error)
    → validate pcm ≡ err e
    → Publishes s name pcm
unfolding probe_server run_source run_sink
refused s name pcm e h = rw h (refl, refl, refl)

-- None of the three functions panics, and none fails for the stride: each checks the configuration and
-- makes the eight calls in order, up to the first error. If there is none the main loop runs with a node of the right
-- class, in the format of the configuration, and the source with as many bytes a frame as the samples
-- of its channels have.
pub run_source-Publishes :
    (s : Server) (name : String) (pcm : PcmConfiguration) → Publishes s name pcm
run_source-Publishes s name pcm = decided (validate pcm) refl
  where
    decided : (r : Result (Unit {0})) → validate pcm ≡ r → Publishes s name pcm
    decided (ok _) e = chained s name pcm ((validate_iff pcm).0 e)
    decided (err x) e = refused s name pcm x e

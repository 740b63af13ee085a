-- ===== src/App/Look.antt =====
-- The effects of `App` that bring the theme, the density, the accent and the fonts to the document. A name
-- of an accent or a font is none of the names that every object has.
pub mod Painted
use orchis_foundry.Prelude.{Bool, true, false, ◌&&◌, List, [], ◌∷◌, if◌then◌else◌, Str, codes, eqs}
use orchis_foundry.App.Prefs.{Prefs}
use orchis_foundry.App.Prefs

-- The colours of an accent, for the light and for the dark theme.
pub record Accent : Type 0 where
  pub name : Str
  pub accent : Str
  soft : Str
  pub line : Str
  pub dark_accent : Str
  dark_soft : Str
  dark_line : Str

abbrev pub spring : Accent
spring = record {
  name = codes "Spring";
  accent = codes "oklch(62% 0.14 150)";
  soft = codes "oklch(94% 0.04 150)";
  line = codes "oklch(80% 0.08 150)";
  dark_accent = codes "oklch(72% 0.16 150)";
  dark_soft = codes "oklch(28% 0.06 150)";
  dark_line = codes "oklch(45% 0.1 150)";
}

abbrev pub cobalt : Accent
cobalt = record {
  name = codes "Cobalt";
  accent = codes "oklch(60% 0.16 250)";
  soft = codes "oklch(94% 0.04 250)";
  line = codes "oklch(80% 0.08 250)";
  dark_accent = codes "oklch(70% 0.18 250)";
  dark_soft = codes "oklch(28% 0.07 250)";
  dark_line = codes "oklch(45% 0.12 250)";
}

abbrev pub ember : Accent
ember = record {
  name = codes "Ember";
  accent = codes "oklch(62% 0.16 40)";
  soft = codes "oklch(94% 0.04 40)";
  line = codes "oklch(80% 0.09 40)";
  dark_accent = codes "oklch(72% 0.17 40)";
  dark_soft = codes "oklch(30% 0.07 40)";
  dark_line = codes "oklch(45% 0.12 40)";
}

abbrev violet : Accent
violet = record {
  name = codes "Violet";
  accent = codes "oklch(58% 0.17 300)";
  soft = codes "oklch(94% 0.04 300)";
  line = codes "oklch(78% 0.08 300)";
  dark_accent = codes "oklch(70% 0.18 300)";
  dark_soft = codes "oklch(28% 0.07 300)";
  dark_line = codes "oklch(45% 0.12 300)";
}

-- ACCENTS.
abbrev accents : List (Str × Accent)
accents =
    (codes "spring", spring)
    ∷ (codes "cobalt", cobalt)
    ∷ (codes "ember", ember)
    ∷ (codes "violet", violet)
    ∷ []

pub record Faces : Type 0 where
  sans : Str
  pub mono : Str

abbrev pub geist : Faces
geist = record {
  sans = codes "\"Geist\", ui-sans-serif, -apple-system, sans-serif";
  mono = codes "\"Geist Mono\", ui-monospace, monospace";
}

-- FONTS, without their labels.
abbrev pub fonts : List (Str × Faces)
fonts =
    (codes "geist", geist)
    ∷ (
      codes "serifMix",
      record {
        sans = codes "\"Fraunces\", \"Geist\", serif";
        mono = codes "\"Geist Mono\", monospace";
      },
    )
    ∷ (
      codes "mono",
      record { sans = codes "\"Geist Mono\", monospace"; mono = codes "\"Geist Mono\", monospace" },
    )
    ∷ []

-- `TABLE[name] || other`.
unfoldable entry_or {ℓ} : {A : Type ℓ} → List (Str × A) → A → Str → A
unfolding eqs
entry_or [] other name = other
entry_or (e ∷ es) other name =
    let rest = entry_or es other name in if eqs e.0 name then e.1 else rest

-- The custom properties of an accent.
pub record Hues : Type 0 where
  pub accent : Str
  soft : Str
  pub line : Str

abbrev hues_in : Bool → Accent → Hues
hues_in true a = record { accent = a.dark_accent; soft = a.dark_soft; line = a.dark_line }
hues_in false a = record { accent = a.accent; soft = a.soft; line = a.line }

unfoldable pub hues : Str → Str → Hues
unfolding entry_or
hues accent theme = hues_in (eqs theme (codes "dark")) (entry_or accents spring accent)

unfoldable pub faces : Str → Faces
unfolding entry_or
faces font = entry_or fonts geist font

-- What stands in the document.
pub record Document : Type 0 where
  pub theme : Str
  pub density : Str
  pub hues : Hues
  pub faces : Faces

-- The first run of the effects.
abbrev pub painted : Prefs → Document
painted p = record {
  theme = p.theme;
  density = p.tweaks.density;
  hues = hues p.tweaks.accent p.theme;
  faces = faces p.tweaks.font;
}

-- The effects after a render, each where a value it depends on has changed.
unfoldable pub repainted : Prefs → Prefs → Document → Document
unfolding eqs
repainted old new d = record {
  theme = if eqs old.theme new.theme then d.theme else new.theme;
  density = if eqs old.tweaks.density new.tweaks.density then d.density else new.tweaks.density;
  hues =
      if eqs old.tweaks.accent new.tweaks.accent && eqs old.theme new.theme
      then d.hues
      else hues new.tweaks.accent new.theme;
  faces = if eqs old.tweaks.font new.tweaks.font then d.faces else faces new.tweaks.font;
}

-- The preferences with the document, event by event.
unfoldable pub show_all : Prefs → Document → List Prefs.Event → Prefs × Document
unfolding repainted
show_all p d [] = (p, d)
show_all p d (e ∷ es) = let q = (Prefs.step p e).0 in show_all q (repainted p q d) es

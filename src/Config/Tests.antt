-- ===== src/Config/Tests.antt =====
-- Runs of the configuration, and its theorems at them.
use share_note_pad.Base.{◌≡◌, refl, true, false, some, none, [], codes, arith}
use share_note_pad.Config.{
  Config, ConfigDisk, load_existing, apply_defaults, load_or_create, save, settings_text,
  generate_device_id, parse_port,
}
use share_note_pad.Config.Defaults.{IsUsable, load_or_create-IsUsable}
use share_note_pad.Config.Lines.{trim_start, trim_end}
use share_note_pad.Config.Saving.{load_existing-save}
use share_note_pad.Numbers.{stoul}
use share_note_pad.Protocol.Codec.{wide_to_utf8}
use share_note_pad.Protocol.Json.{format_unsigned}
use share_note_pad.Protocol.Tests.{ascii_api}
use share_note_pad.Storage.{writes_all, has_prefix}

abbrev settings : Config
settings = record {
  device_id = codes "local-device";
  nickname = codes "My Name";
  port = 7780;
  last_error = [];
  file = none;
}

abbrev fresh : Config
fresh = record settings { device_id = []; nickname = []; port = 7777 }

abbrev disk : ConfigDisk
disk = record {
  creates_directory = true;
  opens_to_read = true;
  opens_to_write = true;
  write = writes_all;
}

settings_written :
    settings_text settings ≡ codes "device_id=local-device\nnickname=My Name\nport=7780\n"
unfolding settings_text format_unsigned
settings_written = refl

guid_cut : generate_device_id (some (codes "{0A-FF}")) ≡ codes "0a-ff"
unfolding generate_device_id
guid_cut = refl

-- What `std::stoul` lets through.
negative_port : parse_port (codes " -4294967295 x") ≡ some 1
unfolding parse_port stoul
negative_port = refl

load_existing-save_example :
    load_existing ascii_api disk
      (record fresh { file = (save ascii_api disk settings).0.file }, false)
    ≡ (record settings { file = (save ascii_api disk settings).0.file }, false, true)
unfolding save settings_text wide_to_utf8 format_unsigned has_prefix trim_start trim_end
load_existing-save_example =
    load_existing-save ascii_api disk disk settings
      (record fresh { file = (save ascii_api disk settings).0.file }) false refl
      (record {
        device = record {
          front = refl;
          end = refl;
          line = (
            refl,
            (
              refl,
              (refl, (refl, (refl, (refl, (refl, (refl, (refl, (refl, (refl, (refl, tt)))))))))),
            ),
          );
        };
        name = record {
          front = refl;
          end = refl;
          line = (refl, (refl, (refl, (refl, (refl, (refl, (refl, tt)))))));
        };
        some_port = omega arith;
        small = omega arith;
      })
      refl refl refl

-- Without a file.
load_or_create-IsUsable_example :
    IsUsable (load_or_create ascii_api disk (codes "local-device") fresh).0
unfolding load_or_create apply_defaults save settings_text wide_to_utf8 format_unsigned
load_or_create-IsUsable_example =
    load_or_create-IsUsable ascii_api disk (codes "local-device") fresh refl (omega arith) refl

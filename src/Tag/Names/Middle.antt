-- ===== src/Tag/Names/Middle.antt =====
-- types.gen.go: the numbers of tags and the names of their constants, the second third.
use go_rpm.Base.{ℕ, Bytes, List, [], ◌∷◌, codes}

unfoldable pub middle_names : List (ℕ × Bytes)
middle_names =
    (1114, codes "RPMTAG_OBSOLETEFLAGS")
    ∷ (1115, codes "RPMTAG_OBSOLETEVERSION")
    ∷ (1116, codes "RPMTAG_DIRINDEXES")
    ∷ (1117, codes "RPMTAG_BASENAMES")
    ∷ (1118, codes "RPMTAG_DIRNAMES")
    ∷ (1119, codes "RPMTAG_ORIGDIRINDEXES")
    ∷ (1120, codes "RPMTAG_ORIGBASENAMES")
    ∷ (1121, codes "RPMTAG_ORIGDIRNAMES")
    ∷ (1122, codes "RPMTAG_OPTFLAGS")
    ∷ (1123, codes "RPMTAG_DISTURL")
    ∷ (1124, codes "RPMTAG_PAYLOADFORMAT")
    ∷ (1125, codes "RPMTAG_PAYLOADCOMPRESSOR")
    ∷ (1126, codes "RPMTAG_PAYLOADFLAGS")
    ∷ (1127, codes "RPMTAG_INSTALLCOLOR")
    ∷ (1128, codes "RPMTAG_INSTALLTID")
    ∷ (1129, codes "RPMTAG_REMOVETID")
    ∷ (1130, codes "RPMTAG_SHA1RHN")
    ∷ (1131, codes "RPMTAG_RHNPLATFORM")
    ∷ (1132, codes "RPMTAG_PLATFORM")
    ∷ (1133, codes "RPMTAG_PATCHESNAME")
    ∷ (1134, codes "RPMTAG_PATCHESFLAGS")
    ∷ (1135, codes "RPMTAG_PATCHESVERSION")
    ∷ (1136, codes "RPMTAG_CACHECTIME")
    ∷ (1137, codes "RPMTAG_CACHEPKGPATH")
    ∷ (1138, codes "RPMTAG_CACHEPKGSIZE")
    ∷ (1139, codes "RPMTAG_CACHEPKGMTIME")
    ∷ (1140, codes "RPMTAG_FILECOLORS")
    ∷ (1141, codes "RPMTAG_FILECLASS")
    ∷ (1142, codes "RPMTAG_CLASSDICT")
    ∷ (1143, codes "RPMTAG_FILEDEPENDSX")
    ∷ (1144, codes "RPMTAG_FILEDEPENDSN")
    ∷ (1145, codes "RPMTAG_DEPENDSDICT")
    ∷ (1146, codes "RPMTAG_SOURCEPKGID")
    ∷ (1147, codes "RPMTAG_FILECONTEXTS")
    ∷ (1148, codes "RPMTAG_FSCONTEXTS")
    ∷ (1149, codes "RPMTAG_RECONTEXTS")
    ∷ (1150, codes "RPMTAG_POLICIES")
    ∷ (1151, codes "RPMTAG_PRETRANS")
    ∷ (1152, codes "RPMTAG_POSTTRANS")
    ∷ (1153, codes "RPMTAG_PRETRANSPROG")
    ∷ (1154, codes "RPMTAG_POSTTRANSPROG")
    ∷ (1155, codes "RPMTAG_DISTTAG")
    ∷ (1156, codes "RPMTAG_OLDSUGGESTSNAME")
    ∷ (1157, codes "RPMTAG_OLDSUGGESTSVERSION")
    ∷ (1158, codes "RPMTAG_OLDSUGGESTSFLAGS")
    ∷ (1159, codes "RPMTAG_OLDENHANCESNAME")
    ∷ (1160, codes "RPMTAG_OLDENHANCESVERSION")
    ∷ (1161, codes "RPMTAG_OLDENHANCESFLAGS")
    ∷ (1162, codes "RPMTAG_PRIORITY")
    ∷ (1163, codes "RPMTAG_CVSID")
    ∷ (1164, codes "RPMTAG_BLINKPKGID")
    ∷ (1165, codes "RPMTAG_BLINKHDRID")
    ∷ (1166, codes "RPMTAG_BLINKNEVRA")
    ∷ (1167, codes "RPMTAG_FLINKPKGID")
    ∷ (1168, codes "RPMTAG_FLINKHDRID")
    ∷ (1169, codes "RPMTAG_FLINKNEVRA")
    ∷ (1170, codes "RPMTAG_PACKAGEORIGIN")
    ∷ (1171, codes "RPMTAG_TRIGGERPREIN")
    ∷ (1172, codes "RPMTAG_BUILDSUGGESTS")
    ∷ (1173, codes "RPMTAG_BUILDENHANCES")
    ∷ (1174, codes "RPMTAG_SCRIPTSTATES")
    ∷ (1175, codes "RPMTAG_SCRIPTMETRICS")
    ∷ (1176, codes "RPMTAG_BUILDCPUCLOCK")
    ∷ (1177, codes "RPMTAG_FILEDIGESTALGOS")
    ∷ (1178, codes "RPMTAG_VARIANTS")
    ∷ (1179, codes "RPMTAG_XMAJOR")
    ∷ (1180, codes "RPMTAG_XMINOR")
    ∷ (1181, codes "RPMTAG_REPOTAG")
    ∷ (1182, codes "RPMTAG_KEYWORDS")
    ∷ (1183, codes "RPMTAG_BUILDPLATFORMS")
    ∷ (1184, codes "RPMTAG_PACKAGECOLOR")
    ∷ (1185, codes "RPMTAG_PACKAGEPREFCOLOR")
    ∷ (1186, codes "RPMTAG_XATTRSDICT")
    ∷ (1187, codes "RPMTAG_FILEXATTRSX")
    ∷ (1188, codes "RPMTAG_DEPATTRSDICT")
    ∷ (1189, codes "RPMTAG_CONFLICTATTRSX")
    ∷ (1190, codes "RPMTAG_OBSOLETEATTRSX")
    ∷ (1191, codes "RPMTAG_PROVIDEATTRSX")
    ∷ (1192, codes "RPMTAG_REQUIREATTRSX")
    ∷ (1193, codes "RPMTAG_BUILDPROVIDES")
    ∷ (1194, codes "RPMTAG_BUILDOBSOLETES")
    ∷ (1195, codes "RPMTAG_DBINSTANCE")
    ∷ (1196, codes "RPMTAG_NVRA")
    ∷ (5000, codes "RPMTAG_FILENAMES")
    ∷ (5001, codes "RPMTAG_FILEPROVIDE")
    ∷ (5002, codes "RPMTAG_FILEREQUIRE")
    ∷ (5003, codes "RPMTAG_FSNAMES")
    ∷ (5004, codes "RPMTAG_FSSIZES")
    ∷ (5005, codes "RPMTAG_TRIGGERCONDS")
    ∷ (5006, codes "RPMTAG_TRIGGERTYPE")
    ∷ (5007, codes "RPMTAG_ORIGFILENAMES")
    ∷ (5008, codes "RPMTAG_LONGFILESIZES")
    ∷ (5009, codes "RPMTAG_LONGSIZE")
    ∷ (5010, codes "RPMTAG_FILECAPS")
    ∷ (5011, codes "RPMTAG_FILEDIGESTALGO")
    ∷ (5012, codes "RPMTAG_BUGURL")
    ∷ (5013, codes "RPMTAG_EVR")
    ∷ (5014, codes "RPMTAG_NVR")
    ∷ (5015, codes "RPMTAG_NEVR")
    ∷ (5016, codes "RPMTAG_NEVRA")
    ∷ (5017, codes "RPMTAG_HEADERCOLOR")
    ∷ (5018, codes "RPMTAG_VERBOSE")
    ∷ (5019, codes "RPMTAG_EPOCHNUM")
    ∷ (5020, codes "RPMTAG_PREINFLAGS")
    ∷ (5021, codes "RPMTAG_POSTINFLAGS")
    ∷ (5022, codes "RPMTAG_PREUNFLAGS")
    ∷ (5023, codes "RPMTAG_POSTUNFLAGS")
    ∷ (5024, codes "RPMTAG_PRETRANSFLAGS")
    ∷ []

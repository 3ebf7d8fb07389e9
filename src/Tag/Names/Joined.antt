-- ===== src/Tag/Names/Joined.antt =====
-- types_string.gen.go: the names that stringer put one behind the other, and where each begins.
use go_rpm.Base.{ℕ, Bytes, List, [], ◌∷◌, codes}

unfoldable pub type_name_0 : Bytes
type_name_0 =
    codes "RPMTAG_HEADERIMAGERPMTAG_HEADERSIGNATURESRPMTAG_HEADERIMMUTABLERPMTAG_HEADERREGIONS"

unfoldable pub type_name_1 : Bytes
type_name_1 = codes "RPMTAG_HEADERI18NTABLE"

unfoldable pub type_name_2 : Bytes
type_name_2 =
    codes
      "RPMTAG_SIG_BASERPMTAG_SIGSIZERPMTAG_SIGLEMD5_1RPMTAG_SIGPGPRPMTAG_SIGLEMD5_2RPMTAG_SIGMD5RPMTAG_SIGGPGRPMTAG_SIGPGP5RPMTAG_BADSHA1_1RPMTAG_BADSHA1_2RPMTAG_PUBKEYSRPMTAG_DSAHEADERRPMTAG_RSAHEADERRPMTAG_SHA1HEADERRPMTAG_LONGSIGSIZERPMTAG_LONGARCHIVESIZE"

unfoldable pub type_name_3 : Bytes
type_name_3 = codes "RPMTAG_SHA256HEADER"

unfoldable pub type_name_4 : Bytes
type_name_4 =
    codes
      "RPMTAG_NAMERPMTAG_VERSIONRPMTAG_RELEASERPMTAG_EPOCHRPMTAG_SUMMARYRPMTAG_DESCRIPTIONRPMTAG_BUILDTIMERPMTAG_BUILDHOSTRPMTAG_INSTALLTIMERPMTAG_SIZERPMTAG_DISTRIBUTIONRPMTAG_VENDORRPMTAG_GIFRPMTAG_XPMRPMTAG_LICENSERPMTAG_PACKAGERRPMTAG_GROUPRPMTAG_CHANGELOGRPMTAG_SOURCERPMTAG_PATCHRPMTAG_URLRPMTAG_OSRPMTAG_ARCHRPMTAG_PREINRPMTAG_POSTINRPMTAG_PREUNRPMTAG_POSTUNRPMTAG_OLDFILENAMESRPMTAG_FILESIZESRPMTAG_FILESTATESRPMTAG_FILEMODESRPMTAG_FILEUIDSRPMTAG_FILEGIDSRPMTAG_FILERDEVSRPMTAG_FILEMTIMESRPMTAG_FILEDIGESTSRPMTAG_FILELINKTOSRPMTAG_FILEFLAGSRPMTAG_ROOTRPMTAG_FILEUSERNAMERPMTAG_FILEGROUPNAMERPMTAG_EXCLUDERPMTAG_EXCLUSIVERPMTAG_ICONRPMTAG_SOURCERPMRPMTAG_FILEVERIFYFLAGSRPMTAG_ARCHIVESIZERPMTAG_PROVIDENAMERPMTAG_REQUIREFLAGSRPMTAG_REQUIRENAMERPMTAG_REQUIREVERSIONRPMTAG_NOSOURCERPMTAG_NOPATCHRPMTAG_CONFLICTFLAGSRPMTAG_CONFLICTNAMERPMTAG_CONFLICTVERSIONRPMTAG_DEFAULTPREFIXRPMTAG_BUILDROOTRPMTAG_INSTALLPREFIXRPMTAG_EXCLUDEARCHRPMTAG_EXCLUDEOSRPMTAG_EXCLUSIVEARCHRPMTAG_EXCLUSIVEOSRPMTAG_AUTOREQPROVRPMTAG_RPMVERSIONRPMTAG_TRIGGERSCRIPTSRPMTAG_TRIGGERNAMERPMTAG_TRIGGERVERSIONRPMTAG_TRIGGERFLAGSRPMTAG_TRIGGERINDEX"

unfoldable pub type_name_5 : Bytes
type_name_5 =
    codes
      "RPMTAG_VERIFYSCRIPTRPMTAG_CHANGELOGTIMERPMTAG_CHANGELOGNAMERPMTAG_CHANGELOGTEXTRPMTAG_BROKENMD5RPMTAG_PREREQRPMTAG_PREINPROGRPMTAG_POSTINPROGRPMTAG_PREUNPROGRPMTAG_POSTUNPROGRPMTAG_BUILDARCHSRPMTAG_OBSOLETENAMERPMTAG_VERIFYSCRIPTPROGRPMTAG_TRIGGERSCRIPTPROGRPMTAG_DOCDIRRPMTAG_COOKIERPMTAG_FILEDEVICESRPMTAG_FILEINODESRPMTAG_FILELANGSRPMTAG_PREFIXESRPMTAG_INSTPREFIXESRPMTAG_TRIGGERINRPMTAG_TRIGGERUNRPMTAG_TRIGGERPOSTUNRPMTAG_AUTOREQRPMTAG_AUTOPROVRPMTAG_CAPABILITYRPMTAG_SOURCEPACKAGERPMTAG_OLDORIGFILENAMESRPMTAG_BUILDPREREQRPMTAG_BUILDREQUIRESRPMTAG_BUILDCONFLICTSRPMTAG_BUILDMACROSRPMTAG_PROVIDEFLAGSRPMTAG_PROVIDEVERSIONRPMTAG_OBSOLETEFLAGSRPMTAG_OBSOLETEVERSIONRPMTAG_DIRINDEXESRPMTAG_BASENAMESRPMTAG_DIRNAMESRPMTAG_ORIGDIRINDEXESRPMTAG_ORIGBASENAMESRPMTAG_ORIGDIRNAMESRPMTAG_OPTFLAGSRPMTAG_DISTURLRPMTAG_PAYLOADFORMATRPMTAG_PAYLOADCOMPRESSORRPMTAG_PAYLOADFLAGSRPMTAG_INSTALLCOLORRPMTAG_INSTALLTIDRPMTAG_REMOVETIDRPMTAG_SHA1RHNRPMTAG_RHNPLATFORMRPMTAG_PLATFORMRPMTAG_PATCHESNAMERPMTAG_PATCHESFLAGSRPMTAG_PATCHESVERSIONRPMTAG_CACHECTIMERPMTAG_CACHEPKGPATHRPMTAG_CACHEPKGSIZERPMTAG_CACHEPKGMTIMERPMTAG_FILECOLORSRPMTAG_FILECLASSRPMTAG_CLASSDICTRPMTAG_FILEDEPENDSXRPMTAG_FILEDEPENDSNRPMTAG_DEPENDSDICTRPMTAG_SOURCEPKGIDRPMTAG_FILECONTEXTSRPMTAG_FSCONTEXTSRPMTAG_RECONTEXTSRPMTAG_POLICIESRPMTAG_PRETRANSRPMTAG_POSTTRANSRPMTAG_PRETRANSPROGRPMTAG_POSTTRANSPROGRPMTAG_DISTTAGRPMTAG_OLDSUGGESTSNAMERPMTAG_OLDSUGGESTSVERSIONRPMTAG_OLDSUGGESTSFLAGSRPMTAG_OLDENHANCESNAMERPMTAG_OLDENHANCESVERSIONRPMTAG_OLDENHANCESFLAGSRPMTAG_PRIORITYRPMTAG_CVSIDRPMTAG_BLINKPKGIDRPMTAG_BLINKHDRIDRPMTAG_BLINKNEVRARPMTAG_FLINKPKGIDRPMTAG_FLINKHDRIDRPMTAG_FLINKNEVRARPMTAG_PACKAGEORIGINRPMTAG_TRIGGERPREINRPMTAG_BUILDSUGGESTSRPMTAG_BUILDENHANCESRPMTAG_SCRIPTSTATESRPMTAG_SCRIPTMETRICSRPMTAG_BUILDCPUCLOCKRPMTAG_FILEDIGESTALGOSRPMTAG_VARIANTSRPMTAG_XMAJORRPMTAG_XMINORRPMTAG_REPOTAGRPMTAG_KEYWORDSRPMTAG_BUILDPLATFORMSRPMTAG_PACKAGECOLORRPMTAG_PACKAGEPREFCOLORRPMTAG_XATTRSDICTRPMTAG_FILEXATTRSXRPMTAG_DEPATTRSDICTRPMTAG_CONFLICTATTRSXRPMTAG_OBSOLETEATTRSXRPMTAG_PROVIDEATTRSXRPMTAG_REQUIREATTRSXRPMTAG_BUILDPROVIDESRPMTAG_BUILDOBSOLETESRPMTAG_DBINSTANCERPMTAG_NVRA"

unfoldable pub type_name_6 : Bytes
type_name_6 =
    codes
      "RPMTAG_FILENAMESRPMTAG_FILEPROVIDERPMTAG_FILEREQUIRERPMTAG_FSNAMESRPMTAG_FSSIZESRPMTAG_TRIGGERCONDSRPMTAG_TRIGGERTYPERPMTAG_ORIGFILENAMESRPMTAG_LONGFILESIZESRPMTAG_LONGSIZERPMTAG_FILECAPSRPMTAG_FILEDIGESTALGORPMTAG_BUGURLRPMTAG_EVRRPMTAG_NVRRPMTAG_NEVRRPMTAG_NEVRARPMTAG_HEADERCOLORRPMTAG_VERBOSERPMTAG_EPOCHNUMRPMTAG_PREINFLAGSRPMTAG_POSTINFLAGSRPMTAG_PREUNFLAGSRPMTAG_POSTUNFLAGSRPMTAG_PRETRANSFLAGSRPMTAG_POSTTRANSFLAGSRPMTAG_VERIFYSCRIPTFLAGSRPMTAG_TRIGGERSCRIPTFLAGS"

unfoldable pub type_name_7 : Bytes
type_name_7 =
    codes
      "RPMTAG_COLLECTIONSRPMTAG_POLICYNAMESRPMTAG_POLICYTYPESRPMTAG_POLICYTYPESINDEXESRPMTAG_POLICYFLAGSRPMTAG_VCSRPMTAG_ORDERNAMERPMTAG_ORDERVERSIONRPMTAG_ORDERFLAGSRPMTAG_MSSFMANIFESTRPMTAG_MSSFDOMAINRPMTAG_INSTFILENAMESRPMTAG_REQUIRENEVRSRPMTAG_PROVIDENEVRSRPMTAG_OBSOLETENEVRSRPMTAG_CONFLICTNEVRSRPMTAG_FILENLINKSRPMTAG_RECOMMENDNAMERPMTAG_RECOMMENDVERSIONRPMTAG_RECOMMENDFLAGSRPMTAG_SUGGESTNAMERPMTAG_SUGGESTVERSIONRPMTAG_SUGGESTFLAGSRPMTAG_SUPPLEMENTNAMERPMTAG_SUPPLEMENTVERSIONRPMTAG_SUPPLEMENTFLAGSRPMTAG_ENHANCENAMERPMTAG_ENHANCEVERSIONRPMTAG_ENHANCEFLAGSRPMTAG_RECOMMENDNEVRSRPMTAG_SUGGESTNEVRSRPMTAG_SUPPLEMENTNEVRSRPMTAG_ENHANCENEVRSRPMTAG_ENCODINGRPMTAG_FILETRIGGERINRPMTAG_FILETRIGGERUNRPMTAG_FILETRIGGERPOSTUNRPMTAG_FILETRIGGERSCRIPTSRPMTAG_FILETRIGGERSCRIPTPROGRPMTAG_FILETRIGGERSCRIPTFLAGSRPMTAG_FILETRIGGERNAMERPMTAG_FILETRIGGERINDEXRPMTAG_FILETRIGGERVERSIONRPMTAG_FILETRIGGERFLAGSRPMTAG_TRANSFILETRIGGERINRPMTAG_TRANSFILETRIGGERUNRPMTAG_TRANSFILETRIGGERPOSTUNRPMTAG_TRANSFILETRIGGERSCRIPTSRPMTAG_TRANSFILETRIGGERSCRIPTPROGRPMTAG_TRANSFILETRIGGERSCRIPTFLAGSRPMTAG_TRANSFILETRIGGERNAMERPMTAG_TRANSFILETRIGGERINDEXRPMTAG_TRANSFILETRIGGERVERSIONRPMTAG_TRANSFILETRIGGERFLAGSRPMTAG_REMOVEPATHPOSTFIXESRPMTAG_FILETRIGGERPRIORITIESRPMTAG_TRANSFILETRIGGERPRIORITIESRPMTAG_FILETRIGGERCONDSRPMTAG_FILETRIGGERTYPERPMTAG_TRANSFILETRIGGERCONDSRPMTAG_TRANSFILETRIGGERTYPERPMTAG_FILESIGNATURESRPMTAG_FILESIGNATURELENGTHRPMTAG_PAYLOADDIGESTRPMTAG_PAYLOADDIGESTALGORPMTAG_AUTOINSTALLEDRPMTAG_IDENTITYRPMTAG_MODULARITYLABELRPMTAG_PAYLOADDIGESTALT"

unfoldable pub type_index_0 : List ℕ
type_index_0 = 0 ∷ 18 ∷ 41 ∷ 63 ∷ 83 ∷ []

unfoldable pub type_index_2 : List ℕ
type_index_2 =
    0 ∷ 15 ∷ 29 ∷ 46 ∷ 59 ∷ 76 ∷ 89 ∷ 102 ∷ 116 ∷ 132 ∷ 148 ∷ 162 ∷ 178 ∷ 194 ∷ 211 ∷ 229 ∷ 251 ∷ []

unfoldable pub type_index_4 : List ℕ
type_index_4 =
    0 ∷ 11 ∷ 25 ∷ 39 ∷ 51 ∷ 65 ∷ 83 ∷ 99 ∷ 115 ∷ 133 ∷ 144 ∷ 163 ∷ 176 ∷ 186 ∷ 196 ∷ 210 ∷ 225 ∷ 237
    ∷ 253 ∷ 266 ∷ 278 ∷ 288 ∷ 297 ∷ 308 ∷ 320 ∷ 333 ∷ 345 ∷ 358 ∷ 377 ∷ 393 ∷ 410 ∷ 426 ∷ 441 ∷ 456
    ∷ 472 ∷ 489 ∷ 507 ∷ 525 ∷ 541 ∷ 552 ∷ 571 ∷ 591 ∷ 605 ∷ 621 ∷ 632 ∷ 648 ∷ 670 ∷ 688 ∷ 706 ∷ 725
    ∷ 743 ∷ 764 ∷ 779 ∷ 793 ∷ 813 ∷ 832 ∷ 854 ∷ 874 ∷ 890 ∷ 910 ∷ 928 ∷ 944 ∷ 964 ∷ 982 ∷ 1000
    ∷ 1017 ∷ 1038 ∷ 1056 ∷ 1077 ∷ 1096 ∷ 1115 ∷ []

unfoldable pub type_index_5 : List ℕ
type_index_5 =
    0 ∷ 19 ∷ 39 ∷ 59 ∷ 79 ∷ 95 ∷ 108 ∷ 124 ∷ 141 ∷ 157 ∷ 174 ∷ 191 ∷ 210 ∷ 233 ∷ 257 ∷ 270 ∷ 283
    ∷ 301 ∷ 318 ∷ 334 ∷ 349 ∷ 368 ∷ 384 ∷ 400 ∷ 420 ∷ 434 ∷ 449 ∷ 466 ∷ 486 ∷ 509 ∷ 527 ∷ 547 ∷ 568
    ∷ 586 ∷ 605 ∷ 626 ∷ 646 ∷ 668 ∷ 685 ∷ 701 ∷ 716 ∷ 737 ∷ 757 ∷ 776 ∷ 791 ∷ 805 ∷ 825 ∷ 849 ∷ 868
    ∷ 887 ∷ 904 ∷ 920 ∷ 934 ∷ 952 ∷ 967 ∷ 985 ∷ 1004 ∷ 1025 ∷ 1042 ∷ 1061 ∷ 1080 ∷ 1100 ∷ 1117
    ∷ 1133 ∷ 1149 ∷ 1168 ∷ 1187 ∷ 1205 ∷ 1223 ∷ 1242 ∷ 1259 ∷ 1276 ∷ 1291 ∷ 1306 ∷ 1322 ∷ 1341
    ∷ 1361 ∷ 1375 ∷ 1397 ∷ 1422 ∷ 1445 ∷ 1467 ∷ 1492 ∷ 1515 ∷ 1530 ∷ 1542 ∷ 1559 ∷ 1576 ∷ 1593
    ∷ 1610 ∷ 1627 ∷ 1644 ∷ 1664 ∷ 1683 ∷ 1703 ∷ 1723 ∷ 1742 ∷ 1762 ∷ 1782 ∷ 1804 ∷ 1819 ∷ 1832
    ∷ 1845 ∷ 1859 ∷ 1874 ∷ 1895 ∷ 1914 ∷ 1937 ∷ 1954 ∷ 1972 ∷ 1991 ∷ 2012 ∷ 2033 ∷ 2053 ∷ 2073
    ∷ 2093 ∷ 2114 ∷ 2131 ∷ 2142 ∷ []

unfoldable pub type_index_6 : List ℕ
type_index_6 =
    0 ∷ 16 ∷ 34 ∷ 52 ∷ 66 ∷ 80 ∷ 99 ∷ 117 ∷ 137 ∷ 157 ∷ 172 ∷ 187 ∷ 208 ∷ 221 ∷ 231 ∷ 241 ∷ 252
    ∷ 264 ∷ 282 ∷ 296 ∷ 311 ∷ 328 ∷ 346 ∷ 363 ∷ 381 ∷ 401 ∷ 422 ∷ 446 ∷ 471 ∷ []

unfoldable pub type_index_7 : List ℕ
type_index_7 =
    0 ∷ 18 ∷ 36 ∷ 54 ∷ 79 ∷ 97 ∷ 107 ∷ 123 ∷ 142 ∷ 159 ∷ 178 ∷ 195 ∷ 215 ∷ 234 ∷ 253 ∷ 273 ∷ 293
    ∷ 310 ∷ 330 ∷ 353 ∷ 374 ∷ 392 ∷ 413 ∷ 432 ∷ 453 ∷ 477 ∷ 499 ∷ 517 ∷ 538 ∷ 557 ∷ 578 ∷ 597 ∷ 619
    ∷ 638 ∷ 653 ∷ 673 ∷ 693 ∷ 717 ∷ 742 ∷ 770 ∷ 799 ∷ 821 ∷ 844 ∷ 869 ∷ 892 ∷ 917 ∷ 942 ∷ 971 ∷ 1001
    ∷ 1034 ∷ 1068 ∷ 1095 ∷ 1123 ∷ 1153 ∷ 1181 ∷ 1207 ∷ 1235 ∷ 1268 ∷ 1291 ∷ 1313 ∷ 1341 ∷ 1368
    ∷ 1389 ∷ 1415 ∷ 1435 ∷ 1459 ∷ 1479 ∷ 1494 ∷ 1516 ∷ 1539 ∷ []
